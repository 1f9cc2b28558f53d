-- ===== src/Npr/Entries.antt =====
-- ixp/npr/nprd_configuration.cc: the steps in which add_route, add_pfilter and add_afilter agree, and
-- those in which their deletes and queries do.
pub mod Stored
use onldaemons.Prelude.{ℕ, ◌+◌, ◌%◌, ◌^◌, List, Bool, true, false, ◌==◌, if◌then◌else◌}
use onldaemons.Npr.Tcam.{
  Table, TcamCommand, success, failure, Answer, Fault, Outcome, done, exception, Configuration, M,
  pure, throw, and_then, ◌>>=◌, ◌>>◌, sram_slot, take, give, sram_index2addr, sram_addr2index,
  new_id, add_sram_map, del_sram_map, result_base_addr, sram_read, write_result, talk, look_up,
}

-- The three words of a result.
pub record Words : Type 0 where
  pub v0 : ℕ
  pub v1 : ℕ
  pub v2 : ℕ

-- `take_index` gives the index in the TCAM; `word` is the entry's result in the TCAM for an address.
unfoldable pub add_entry :
    Table → List ℕ → List ℕ → Words → (word : ℕ → ℕ) → M ℕ → Answer → M (Unit {0})
add_entry table key mask v word take_index answer = do
  index ← take_index
  sram_index ← take sram_slot
  let sram_addr = sram_index2addr sram_index
  id ← new_id
  add_sram_map sram_addr id
  write_result (sram_addr + result_base_addr) v.v0 v.v1 v.v2 index
  talk (TcamCommand.add table key mask (word sram_addr) index) answer 4
  if answer.response == success then pure tt else throw Fault.failed

-- `give_index` gives the index in the TCAM back to the list that it belongs to.
unfoldable pub del_entry :
    Table → List ℕ → (queried deleted : Answer) → (give_index : ℕ → M (Unit {0})) → M (Unit {0})
del_entry table key queried deleted give_index = do
  sram_addr ← look_up table key queried
  let sram_index = sram_addr2index sram_addr
  tcamindex ← sram_read (sram_addr + result_base_addr + 12)
  talk (TcamCommand.del table tcamindex) deleted 4
  if deleted.response == failure
      then throw Fault.failed
      else (do give sram_slot sram_index; give_index tcamindex; del_sram_map sram_addr)

unfoldable pub query_entry : Table → List ℕ → Answer → M Words
query_entry table key answer = do
  sram_addr ← look_up table key answer
  v0 ← sram_read (sram_addr + result_base_addr)
  v1 ← sram_read (sram_addr + result_base_addr + 4)
  v2 ← sram_read (sram_addr + result_base_addr + 8)
  pure (record { v0 = v0; v1 = v1; v2 = v2 })
