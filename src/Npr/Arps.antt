-- ===== src/Npr/Arps.antt =====
-- ixp/npr/nprd_configuration.cc: the operations on ARP entries. Their results have two words and no id.
pub mod Restore
use onldaemons.Prelude.{ℕ, ◌+◌, List, [], ◌∷◌, ◌++◌, drop, ◌==◌, if◌then◌else◌}
use onldaemons.Npr.Tcam.{
  Table, TcamCommand, success, failure, Answer, Fault, Outcome, done, exception, Configuration, M,
  pure, throw, and_then, ◌>>=◌, ◌>>◌, sram_slot, arp_slot, take, give, sram_index2addr,
  sram_addr2index, result_base_addr, sram_read, sram_write, write_result, talk, look_up,
}

pub record ArpResult : Type 0 where
  pub v0 : ℕ
  pub v1 : ℕ

-- daddr 0xffffffff, res1 and res2 0; the union's bytes behind them are those of the given mask.
unfoldable pub arp_mask : List ℕ → List ℕ
arp_mask mask = 255 ∷ 255 ∷ 255 ∷ 255 ∷ 0 ∷ 0 ∷ 0 ∷ 0 ∷ 0 ∷ drop 9 mask

pub add_arp : List ℕ → List ℕ → ArpResult → Answer → M (Unit {0})
add_arp key mask result answer = do
  index ← take arp_slot
  sram_index ← take sram_slot
  let sram_addr = sram_index2addr sram_index
  write_result (sram_addr + result_base_addr) result.v0 result.v1 0 index
  talk (TcamCommand.add Table.arp key (arp_mask mask) sram_addr index) answer 4
  if answer.response == success then pure tt else throw Fault.failed

pub del_arp : List ℕ → (queried deleted : Answer) → M (Unit {0})
del_arp key queried deleted = do
  sram_addr ← look_up Table.arp key queried
  let sram_index = sram_addr2index sram_addr
  tcamindex ← sram_read (sram_addr + result_base_addr + 12)
  talk (TcamCommand.del Table.arp tcamindex) deleted 4
  if deleted.response == failure
      then throw Fault.failed
      else (do give sram_slot sram_index; give arp_slot tcamindex)

pub update_arp : List ℕ → ArpResult → Answer → M (Unit {0})
update_arp key result answer = do
  sram_addr ← look_up Table.arp key answer
  sram_write (sram_addr + result_base_addr) result.v0
  sram_write (sram_addr + result_base_addr + 4) result.v1

pub query_arp : List ℕ → Answer → M ArpResult
query_arp key answer = do
  sram_addr ← look_up Table.arp key answer
  v0 ← sram_read (sram_addr + result_base_addr)
  v1 ← sram_read (sram_addr + result_base_addr + 4)
  pure (record { v0 = v0; v1 = v1 })
