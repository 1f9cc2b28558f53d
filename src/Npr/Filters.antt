-- ===== src/Npr/Filters.antt =====
-- ixp/npr/nprd_configuration.cc: the operations on primary and auxiliary filters.
pub mod Misplaced
use onldaemons.Prelude.{ℕ, ◌+◌, ◌*◌, ◌/◌, ◌%◌, ◌^◌, List, Bool, ltb, ◌==◌, if◌then◌else◌}
use onldaemons.Npr.Classes.{max_priority, pfilter_class, afilter_class}
use onldaemons.Npr.Tcam.{Table, Answer, Fault, M, throw, pfilter_slot, afilter_slot, take, give}
use onldaemons.Npr.Entries.{Words, add_entry, del_entry, query_entry}

-- FILTER_USE_ROUTE
abbrev filter_use_route : ℕ
filter_use_route = 6

pub record PfilterResult : Type 0 where
  pub ip_mc_valid : ℕ
  pub uc_mc_bits : ℕ
  pub words : Words

pub record AfilterResult : Type 0 where
  pub out_port : ℕ
  pub words : Words

-- The priority above the 21 bits of the address, and bit 28 for a unicast filter that uses the route.
-- The code joins them by `|`; an address is below 2 ^ 21 and a priority below 2 ^ 7.
unfoldable pub pfilter_word : ℕ → PfilterResult → ℕ → ℕ
pfilter_word priority result sram_addr =
    let word = priority * 2 ^ 21 + sram_addr in
    if result.ip_mc_valid == 0
    then (if (result.uc_mc_bits / 2 ^ 3) % 2 ^ 3 == filter_use_route then 2 ^ 28 + word else word)
    else word

unfoldable pub afilter_word : AfilterResult → ℕ → ℕ
afilter_word result sram_addr =
    if result.out_port == filter_use_route then 2 ^ 28 + sram_addr else sram_addr

pub add_pfilter : List ℕ → List ℕ → ℕ → PfilterResult → Answer → M (Unit {0})
add_pfilter key mask priority result answer =
    if ltb max_priority priority
    then throw Fault.invalid_priority
    else add_entry Table.pfilter key mask result.words (pfilter_word priority result)
        (take (pfilter_slot priority)) answer

pub del_pfilter : List ℕ → (queried deleted : Answer) → M (Unit {0})
del_pfilter key queried deleted =
    del_entry Table.pfilter key queried deleted (λ i. give (pfilter_slot (pfilter_class i)) i)

pub query_pfilter : List ℕ → Answer → M Words
query_pfilter key answer = query_entry Table.pfilter key answer

pub add_afilter : List ℕ → List ℕ → ℕ → AfilterResult → Answer → M (Unit {0})
add_afilter key mask priority result answer =
    if ltb max_priority priority
    then throw Fault.invalid_priority
    else add_entry Table.afilter key mask result.words (afilter_word result)
        (take (afilter_slot priority)) answer

pub del_afilter : List ℕ → (queried deleted : Answer) → M (Unit {0})
del_afilter key queried deleted =
    del_entry Table.afilter key queried deleted (λ i. give (afilter_slot (afilter_class i)) i)

pub query_afilter : List ℕ → Answer → M Words
query_afilter key answer = query_entry Table.afilter key answer
