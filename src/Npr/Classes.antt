-- ===== src/Npr/Classes.antt =====
-- ixp/npr/nprd_configuration.h and nprd_configuration.cc: which indexes of the TCAM stand for which
-- prefix lengths and priorities. Several constants depend on the sizes of the TCAM's databases.
pub mod Order
pub mod Prefix
use onldaemons.Prelude.{
  ℕ, zero, suc, ◌+◌, ◌-◌, ◌*◌, ◌/◌, ◌%◌, ◌^◌, List, [], ◌∷◌, Bool, ◌&&◌, leb, ◌==◌, if◌then◌else◌,
}
use onldaemons.Npr.FreeList.{Range, range}

abbrev pub result_num_entries : ℕ
result_num_entries = 0x200000 / 16

abbrev pub route_first_index : ℕ
route_first_index = 1

abbrev pub route_last_index : ℕ
route_last_index = 0x4000 - 2

abbrev pub pfilter_last_index : ℕ
pfilter_last_index = 0x8000 - 2

abbrev pub afilter_last_index : ℕ
afilter_last_index = 0x4000 - 2

abbrev pub arp_last_index : ℕ
arp_last_index = 0x4000 - 2

abbrev pub route_mc_first_index : ℕ
route_mc_first_index = route_first_index

abbrev pub route_mc_last_index : ℕ
route_mc_last_index = 0x4000 / 2 - 2

abbrev pub route_uc_first_index : ℕ
route_uc_first_index = 0x4000 / 2 + 1

abbrev pub route_uc_last_index : ℕ
route_uc_last_index = route_last_index

abbrev pub max_prefix_len : ℕ
max_prefix_len = 32

abbrev pub max_priority : ℕ
max_priority = 63

abbrev pub route_mc_num_per_class : ℕ
route_mc_num_per_class = (route_mc_last_index - route_mc_first_index) / (max_prefix_len + 1)

abbrev pub route_uc_num_per_class : ℕ
route_uc_num_per_class = (route_uc_last_index - route_uc_first_index) / (max_prefix_len + 1)

-- The first index of every filter table is 1.
abbrev pub pfilter_num_per_class : ℕ
pfilter_num_per_class = (pfilter_last_index - 1) / (max_priority + 1)

abbrev pub afilter_num_per_class : ℕ
afilter_num_per_class = (afilter_last_index - 1) / (max_priority + 1)

-- The lists that start_router sets up, one range for each.
unfoldable pub sram_start : Range
sram_start = range 1 (result_num_entries - 2)

unfoldable pub mc_start : ℕ → Range
mc_start zero =
    let one =
      route_mc_first_index
      + route_mc_num_per_class * (max_prefix_len - 1)
      + route_mc_num_per_class
      - 2 in
    range (one + 1) (one + 1)
mc_start (suc zero) =
    let left = route_mc_first_index + route_mc_num_per_class * (max_prefix_len - 1) in
    range left (left + route_mc_num_per_class - 2)
mc_start (suc (suc i)) =
    let left = route_mc_first_index + route_mc_num_per_class * (max_prefix_len - suc (suc i)) in
    range left (left + route_mc_num_per_class - 1)

unfoldable pub uc_start : ℕ → Range
uc_start zero =
    let one =
      route_uc_first_index
      + route_uc_num_per_class * (max_prefix_len - 0)
      + route_uc_num_per_class
      - 2 in
    range (one + 1) (one + 1)
uc_start (suc zero) =
    let left = route_uc_first_index + route_uc_num_per_class * (max_prefix_len - 0) in
    range left (left + route_uc_num_per_class - 2)
uc_start (suc (suc i)) =
    let left = route_uc_first_index + route_uc_num_per_class * (max_prefix_len - suc (suc i)) in
    range left (left + route_uc_num_per_class - 1)

unfoldable pub pfilter_start : ℕ → Range
pfilter_start i =
    let left = 1 + pfilter_num_per_class * i in range left (left + pfilter_num_per_class - 1)

unfoldable pub afilter_start : ℕ → Range
afilter_start i =
    let left = 1 + afilter_num_per_class * i in range left (left + afilter_num_per_class - 1)

unfoldable pub arp_start : Range
arp_start = range 1 arp_last_index

abbrev sub32 : ℕ → ℕ → ℕ
sub32 a b = (a + 2 ^ 32 - b) % 2 ^ 32

-- From the index of an entry back to its class, as the operations that delete it do.
unfoldable pub is_mc_index : ℕ → Bool
is_mc_index i = leb route_mc_first_index i && leb i route_mc_last_index

unfoldable pub mc_class : ℕ → ℕ
mc_class i =
    let len = sub32 max_prefix_len (sub32 i route_mc_first_index / route_mc_num_per_class) in
    if len == 1 && i == route_mc_first_index + route_mc_num_per_class * max_prefix_len - 1
    then 0
    else len

unfoldable pub uc_class : ℕ → ℕ
uc_class i =
    let len = sub32 max_prefix_len (sub32 i route_uc_first_index / route_uc_num_per_class) in
    if len == 1 && i == route_uc_first_index + route_uc_num_per_class * max_prefix_len - 1
    then 0
    else len

unfoldable pub pfilter_class : ℕ → ℕ
pfilter_class i = sub32 max_priority (sub32 i 1 / pfilter_num_per_class)

unfoldable pub afilter_class : ℕ → ℕ
afilter_class i = sub32 max_priority (sub32 i 1 / afilter_num_per_class)

-- `addr_mask & (1 << i)` for i from 31 down, until it is 0; the first argument is the i's that are left.
unfoldable pub prefix_from : ℕ → ℕ → ℕ → ℕ
prefix_from zero addr_mask length = length
prefix_from (suc i) addr_mask length =
    let more = prefix_from i addr_mask (length + 1) in
    if (addr_mask / 2 ^ i) % 2 == 0 then length else more

unfoldable pub get_prefix_length : ℕ → ℕ
unfolding prefix_from
get_prefix_length addr_mask = prefix_from 32 addr_mask 0
