-- ===== src/Npr/Tcam.antt =====
-- ixp/npr/nprd_configuration.cc: what the operations on routes, filters and ARP entries share. The state
-- is the daemon's lists and the words of SRAM that hold results; the TCAM daemon on the other end of
-- the socket is a parameter, by what it answers. An exception keeps the changes made before it.
use onldaemons.Prelude.{
  ◌≡◌, ℕ, ◌+◌, ◌*◌, ◌/◌, ◌%◌, ◌^◌, List, [], ◌∷◌, Option, none, some, Bool, true, not, ltb, ◌==◌,
  if◌then◌else◌,
}
use mathlib.Core.Option.{map as option_map}
use onldaemons.Npr.FreeList.{Range, get_free_index, add_free_index}
use onldaemons.Npr.Classes.{sram_start, mc_start, uc_start, pfilter_start, afilter_start, arp_start}

pub data Table : Type 0 where
  route pfilter afilter arp : Table

-- The bytes of a key, as the union's `c` has them, go to the TCAM daemon unread.
pub data TcamCommand : Type 0 where
  add : Table → List ℕ → List ℕ → (result index : ℕ) → TcamCommand
  del : Table → (index : ℕ) → TcamCommand
  query : Table → List ℕ → TcamCommand

abbrev pub success : ℕ
success = 0

abbrev pub failure : ℕ
failure = 1

abbrev pub not_found : ℕ
not_found = 4

-- What comes of one command: whether all of it was written, what read returned, 0 also for an error,
-- and the words that it put into the buffer.
pub record Answer : Type 0 where
  pub written : Bool
  pub bytes_read : ℕ
  pub response : ℕ
  pub result : ℕ

pub data Fault : Type 0 where
  invalid_priority no_free_entry write_failed read_failed too_small failed no_match no_such_addr :
      Fault

pub data Outcome (A : Type 0) : Type 0 where
  done : A → Outcome A
  exception : Fault → Outcome A

pub record SramResultMap : Type 0 where
  pub sram_addr : ℕ
  pub id : ℕ

pub record Configuration : Type 0 where
  pub next_id : ℕ
  pub srmap : List SramResultMap
  pub sram_free_list : List Range
  pub mc_routes : ℕ → List Range
  pub uc_routes : ℕ → List Range
  pub pfilters : ℕ → List Range
  pub afilters : ℕ → List Range
  pub arps : List Range
  pub sram : ℕ → ℕ
  pub sent : List TcamCommand

-- The lists as start_router sets them up; arrays are read below their lengths only.
unfoldable pub started : (ℕ → ℕ) → Configuration
started sram = record {
  next_id = 0;
  srmap = [];
  sram_free_list = sram_start ∷ [];
  mc_routes = λ i. mc_start i ∷ [];
  uc_routes = λ i. uc_start i ∷ [];
  pfilters = λ i. pfilter_start i ∷ [];
  afilters = λ i. afilter_start i ∷ [];
  arps = arp_start ∷ [];
  sram = sram;
  sent = [];
}

abbrev pub M : Type 0 → Type 0
M A = Configuration → Outcome A × Configuration

abbrev pub pure : {A : Type 0} → A → M A
pure a c = (done a, c)

abbrev pub throw : {A : Type 0} → Fault → M A
throw f c = (exception f, c)

abbrev pub and_then :
    {A B : Type 0} → Outcome A × Configuration → (A → M B) → Outcome B × Configuration
and_then (done a, c) k = k a c
and_then (exception f, c) k = (exception f, c)

infixl 5 ◌>>=◌ ◌>>◌
abbrev pub ◌>>=◌ : {A B : Type 0} → M A → (A → M B) → M B
m >>= k = λ c. and_then (m c) k

abbrev pub ◌>>◌ : {B : Type 0} → M (Unit {0}) → M B → M B
m >> k = m >>= λ _. k

abbrev pub update : {A : Type 0} → (ℕ → A) → ℕ → A → ℕ → A
update f i a j = if j == i then a else f j

-- A list of the configuration, to be read and replaced.
pub record Slot : Type 0 where
  pub get : Configuration → List Range
  pub put : List Range → Configuration → Configuration

abbrev pub sram_slot : Slot
sram_slot = record { get = λ c. c.sram_free_list; put = λ rs c. record c { sram_free_list = rs } }

abbrev pub mc_slot : ℕ → Slot
mc_slot i = record {
  get = λ c. c.mc_routes i;
  put = λ rs c. record c { mc_routes = update c.mc_routes i rs };
}

abbrev pub uc_slot : ℕ → Slot
uc_slot i = record {
  get = λ c. c.uc_routes i;
  put = λ rs c. record c { uc_routes = update c.uc_routes i rs };
}

abbrev pub pfilter_slot : ℕ → Slot
pfilter_slot i = record {
  get = λ c. c.pfilters i;
  put = λ rs c. record c { pfilters = update c.pfilters i rs };
}

abbrev pub afilter_slot : ℕ → Slot
afilter_slot i = record {
  get = λ c. c.afilters i;
  put = λ rs c. record c { afilters = update c.afilters i rs };
}

abbrev pub arp_slot : Slot
arp_slot = record { get = λ c. c.arps; put = λ rs c. record c { arps = rs } }

got : Slot → Option (ℕ × List Range) → M ℕ
got s none c = (exception no_free_entry, c)
got s (some (i, rs)) c = (done i, s.put rs c)

-- get_free_index(&list)
unfoldable pub take : Slot → M ℕ
unfolding got
take s c = got s (get_free_index (s.get c)) c

-- add_free_index(&list, index)
unfoldable pub give : Slot → ℕ → M (Unit {0})
give s i c = (done tt, s.put (add_free_index i (s.get c)) c)

unfoldable pub sram_index2addr : ℕ → ℕ
sram_index2addr index = index * 16

unfoldable pub sram_addr2index : ℕ → ℕ
sram_addr2index addr = addr / 16

-- `unsigned int id = next_id; next_id++;`
unfoldable pub new_id : M ℕ
new_id c = (done c.next_id, record c { next_id = (c.next_id + 1) % 2 ^ 32 })

unfoldable pub add_sram_map : ℕ → ℕ → M (Unit {0})
add_sram_map addr id c =
    (done tt, record c { srmap = record { sram_addr = addr; id = id } ∷ c.srmap })

-- The list without the first entry of the address, or none if it has no such entry.
unfoldable pub without_addr : ℕ → List SramResultMap → Option (List SramResultMap)
without_addr addr [] = none
without_addr addr (node ∷ next) =
    if node.sram_addr == addr
    then some next
    else option_map (λ rest. node ∷ rest) (without_addr addr next)

unmapped : Option (List SramResultMap) → M (Unit {0})
unmapped none c = (exception no_such_addr, c)
unmapped (some m) c = (done tt, record c { srmap = m })

unfoldable pub del_sram_map : ℕ → M (Unit {0})
unfolding unmapped
del_sram_map addr c = unmapped (without_addr addr c.srmap) c

find_addr : ℕ → List SramResultMap → Outcome ℕ
find_addr addr [] = exception no_such_addr
find_addr addr (node ∷ next) = if node.sram_addr == addr then done node.id else find_addr addr next

unfoldable pub get_sram_map : ℕ → M ℕ
unfolding find_addr
get_sram_map addr c = (find_addr addr c.srmap, c)

-- RESULT_BASE_ADDR
abbrev pub result_base_addr : ℕ
result_base_addr = 0x400000

unfoldable pub sram_write : ℕ → ℕ → M (Unit {0})
sram_write addr v c = (done tt, record c { sram = update c.sram addr v })

unfoldable pub sram_read : ℕ → M ℕ
sram_read addr c = (done (c.sram addr), c)

-- Three words of the result, and the index in the TCAM behind them.
unfoldable pub write_result : ℕ → (v0 v1 v2 index : ℕ) → M (Unit {0})
unfolding sram_write
write_result sram_addr v0 v1 v2 index = do
  sram_write sram_addr v0
  sram_write (sram_addr + 4) v1
  sram_write (sram_addr + 8) v2
  sram_write (sram_addr + 12) index

unfoldable pub send : TcamCommand → M (Unit {0})
send command c = (done tt, record c { sent = command ∷ c.sent })

-- write, read and the tests of what they return, against the size of the answer that is expected.
unfoldable pub talk : TcamCommand → Answer → ℕ → M (Unit {0})
unfolding send
talk command answer size = do
  send command
  if not answer.written
      then throw write_failed
      else if ltb answer.bytes_read 1
      then throw read_failed
      else if answer.bytes_read == size
      then pure tt
      else throw too_small

-- The answer to a query, and the lower 21 bits of its result.
unfoldable pub look_up : Table → List ℕ → Answer → M ℕ
unfolding talk
look_up table key answer = do
  talk (query table key) answer 8
  if answer.response == failure
      then throw failed
      else if answer.response == not_found
      then throw no_match
      else pure (answer.result % 2 ^ 21)

-- The whole command written, and an answer of `size` bytes read.
abbrev pub reply : ℕ → (response result : ℕ) → Answer
reply size response result = record {
  written = true;
  bytes_read = size;
  response = response;
  result = result;
}

-- The result that goes with the entry that was added last.
abbrev pub last_result : List TcamCommand → ℕ
last_result [] = 0
last_result (TcamCommand.add t key mask result index ∷ sent) = result
last_result (TcamCommand.del t index ∷ sent) = last_result sent
last_result (TcamCommand.query t key ∷ sent) = last_result sent

-- The same indexes are free, and the same results have ids.
pub record SameLists (c d : Configuration) : Type 0 where
  pub srmap : d.srmap ≡ c.srmap
  pub sram_free_list : d.sram_free_list ≡ c.sram_free_list
  pub mc_routes : (i : ℕ) → d.mc_routes i ≡ c.mc_routes i
  pub uc_routes : (i : ℕ) → d.uc_routes i ≡ c.uc_routes i
  pub pfilters : (i : ℕ) → d.pfilters i ≡ c.pfilters i
  pub afilters : (i : ℕ) → d.afilters i ≡ c.afilters i
  pub arps : d.arps ≡ c.arps
