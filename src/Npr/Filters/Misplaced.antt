-- ===== src/Npr/Filters/Misplaced.antt =====
-- Where the index of a deleted filter goes.
use onldaemons.Prelude.{
  ℕ, ◌-◌, ◌%◌, ◌^◌, ◌≤◌, ◌<◌, ◌≡◌, ◌≢◌, refl, List, some, false, ◌==◌, ltb, arith, ==_refl,
}
use onldaemons.Npr.FreeList.{Range, get_free_index, add_free_index}
use onldaemons.Npr.FreeList.Chain.{Chain, is_free}
use onldaemons.Npr.Classes.{pfilter_start, pfilter_class}
use onldaemons.Npr.Classes.Order.{filter_class-filter_start}
use onldaemons.Npr.Tcam.{
  Table, success, done, Configuration, reply, last_result, sram_index2addr, take, give, update,
  pfilter_slot,
}
use onldaemons.Npr.Entries.Stored.{
  taken, with_entry, returned, sram_index2addr-lt, add_entry_lem, del_entry_lem,
}
use onldaemons.Npr.Filters.{PfilterResult, pfilter_word, add_pfilter, del_pfilter}

-- The lists that an added filter takes from are in order, within their ranges, and not used up.
pub record HasRoom (start : Range) (filters : List Range) (c : Configuration) (i s : ℕ)
    (rs ss : List Range) : Type 0 where
  pub chain : Chain start.left start.right filters
  pub index : get_free_index filters ≡ some (i, rs)
  pub sram_chain : Chain 1 131070 c.sram_free_list
  pub sram_index : get_free_index c.sram_free_list ≡ some (s, ss)

pfilter_word_low :
    (priority s : ℕ) (result : PfilterResult)
    → s ≤ 131070
    → pfilter_word priority result (sram_index2addr s) % 2 ^ 21 ≡ sram_index2addr s
unfolding pfilter_word
pfilter_word_low priority s result h = ground (arith, sram_index2addr-lt s h)

pfilter_start_bounds : (priority : ℕ) → priority ≤ 63 → (pfilter_start priority).right < 2 ^ 32 - 1
unfolding pfilter_start
pfilter_start_bounds priority h = omega arith

-- A primary filter of a priority up to 63 is added and deleted, where the free list of its priority
-- and that of SRAM are in order, have only indexes of their own ranges, and are not used up. Both
-- succeed, if the TCAM daemon answers all three commands with success and gives the result that was
-- sent with the entry. But the index in the TCAM does not come back to the list of the filter's
-- priority: it goes to the list of 63 less the priority, which is another.
pub del_pfilter-add_pfilter :
    (key mask : List ℕ) (priority : ℕ) (result : PfilterResult) (c : Configuration) (i s : ℕ)
    (rs ss : List Range)
    → priority ≤ 63
    → HasRoom (pfilter_start priority) (c.pfilters priority) c i s rs ss
    → (d : Configuration) × (e : Configuration) × (add_pfilter key mask priority result
          (reply 4 success 0)
          c
        ≡ (done tt, d))
      × (del_pfilter key (reply 8 success (last_result d.sent)) (reply 4 success 0) d
          ≡ (done tt, e))
      × (priority ≢ 63 - priority)
      × (e.pfilters priority ≡ rs)
      × (is_free i rs ≡ false)
      × (e.pfilters (63 - priority) ≡ add_free_index i (c.pfilters (63 - priority)))
unfolding add_pfilter del_pfilter take give
del_pfilter-add_pfilter key mask priority result c i s rs ss h w =
    let t = taken _ _ _ rs i (pfilter_start_bounds priority h) w.chain w.index in
    let u = taken 1 131070 _ ss s (omega arith) w.sram_chain w.sram_index in
    let (class, _) = (filter_class-filter_start priority i h).0 (t.bottom, t.top) in
    let d = record c { pfilters = update c.pfilters priority rs } in
    let word = pfilter_word priority result in
    let in_range : ltb 63 priority ≡ false = ground arith in
    let other : (priority == (63 - priority)) ≡ false = ground arith in
    let other' : ((63 - priority) == priority) ≡ false = ground arith in
    (
      with_entry Table.pfilter key mask result.words word i s ss d,
      record (returned Table.pfilter key mask result.words word i s ss d) {
        srmap = c.srmap;
        pfilters =
            update d.pfilters (63 - priority) (add_free_index i (d.pfilters (63 - priority)));
      },
      rw in_range (
          add_entry_lem Table.pfilter key mask result.words word (take (pfilter_slot priority)) c d
            i s ss (rw w.index refl) w.sram_index),
      del_entry_lem Table.pfilter key mask result.words word d i s ss u.top
          (pfilter_word_low priority s result u.top) (λ j. give (pfilter_slot (pfilter_class j)) j)
          _ (rw class refl) refl,
      omega arith,
      rw other (rw (==_refl priority) refl),
      t.taken,
      rw (==_refl (63 - priority)) (rw other' refl),
    )
