-- ===== src/Npr/Entries/Stored.antt =====
-- An entry that is stored, queried and deleted, whatever its table.
use onldaemons.Prelude.{
  ℕ, ◌+◌, ◌-◌, ◌%◌, ◌^◌, ◌≤◌, ◌<◌, ◌≡◌, refl, ◌∙◌, sym, ap, subst, List, ◌∷◌, none, some, Bool,
  false, ◌&&◌, ltb, ◌==◌, arith, ==_refl, Bool-cases, inl, inr,
}
use onldaemons.Npr.FreeList.{Range, get_free_index, add_free_index}
use onldaemons.Npr.FreeList.Chain.{Chain, Takes, Gives, get_free_index-Gives}
use onldaemons.Npr.Tcam.{
  Table, TcamCommand, success, Answer, Fault, done, exception, Configuration, M, reply,
  sram_index2addr, sram_addr2index, take, give, new_id, add_sram_map, write_result, talk, look_up,
  sram_read, del_sram_map, update, without_addr,
}
use onldaemons.Npr.Entries.{Words, add_entry, del_entry, query_entry}

-- What is taken from a list, given the list's range.
pub taken :
    (lo hi : ℕ) (rs rs' : List Range) (i : ℕ)
    → hi < 2 ^ 32 - 1
    → Chain lo hi rs
    → get_free_index rs ≡ some (i, rs')
    → Takes lo hi rs i rs'
taken lo hi rs rs' i small c e = subst (Gives lo hi rs) e (get_free_index-Gives lo hi rs small c)

-- An array whose list at `k` is put back as it was.
pub restored :
    (f : ℕ → List Range) (k i j : ℕ) (rs : List Range)
    → add_free_index i rs ≡ f k
    → update (update f k rs) k (add_free_index i (update f k rs k)) j ≡ f j
restored f k i j rs back = elim (Bool-cases (j == k)) [
  | inl same ↦ let e : j ≡ k = ground arith in rw same (rw (==_refl k) (back ∙ ap f (sym e)))
  | inr other ↦ rw other refl
]

-- An SRAM index in its range, as an address and back.
pub sram_index_back : (s : ℕ) → s ≤ 131070 → sram_addr2index (sram_index2addr s) ≡ s
unfolding sram_index2addr sram_addr2index
sram_index_back s h = omega arith

pub sram_index2addr-lt : (s : ℕ) → s ≤ 131070 → sram_index2addr s < 2 ^ 21
unfolding sram_index2addr
sram_index2addr-lt s h = omega arith

read_back :
    (f : ℕ → ℕ) (a v0 v1 v2 v3 : ℕ)
    → let g = update (update (update (update f a v0) (a + 4) v1) (a + 8) v2) (a + 12) v3 in
      (g a ≡ v0) × (g (a + 4) ≡ v1) × (g (a + 8) ≡ v2)
read_back f a v0 v1 v2 v3 = (ground arith, ground arith, ground arith)

-- Written whole, answered by a whole answer, and the answer is that the entry was added.
abbrev pub is_success : Answer → Bool
is_success a = a.written && (a.bytes_read == 4 && a.response == success)

module _ (table : Table) (key mask : List ℕ) (v : Words) (word : ℕ → ℕ) where
  -- The state after an entry was stored, where `d` is the state after its index was taken.
  abbrev pub with_entry : (index sram_index : ℕ) → List Range → Configuration → Configuration
  with_entry i s ss d =
      let addr = sram_index2addr s + 0x400000 in
      record d {
        next_id = (d.next_id + 1) % 2 ^ 32;
        srmap = record { sram_addr = sram_index2addr s; id = d.next_id } ∷ d.srmap;
        sram_free_list = ss;
        sram =
            update (update (update (update d.sram addr v.v0) (addr + 4) v.v1) (addr + 8) v.v2)
              (addr + 12) i;
        sent = TcamCommand.add table key mask (word (sram_index2addr s)) i ∷ d.sent;
      }

  -- The state in which a deleted entry's index is given back.
  abbrev pub returned : ℕ → ℕ → List Range → Configuration → Configuration
  returned i s ss d = record (with_entry i s ss d) {
    sram_free_list = add_free_index s ss;
    sent = TcamCommand.del table i ∷ TcamCommand.query table key ∷ (with_entry i s ss d).sent;
  }

  module _ (take_index : M ℕ) (c d : Configuration) (i s : ℕ) (ss : List Range)
      (e : take_index c ≡ (done i, d)) where
    pub add_entry_lem :
        get_free_index d.sram_free_list ≡ some (s, ss)
        → add_entry table key mask v word take_index (reply 4 success 0) c
          ≡ (done tt, with_entry i s ss d)
    unfolding add_entry take new_id add_sram_map write_result talk
    add_entry_lem f = rw e (rw f refl)

    pub add_entry_no_sram :
        (answer : Answer)
        → get_free_index d.sram_free_list ≡ none
        → add_entry table key mask v word take_index answer c ≡ (exception Fault.no_free_entry, d)
    unfolding add_entry take
    add_entry_no_sram answer f = rw e (rw f refl)

    -- Whatever goes wrong with the TCAM, the state is as if the entry had been stored.
    pub add_entry_failed :
        (answer : Answer)
        → get_free_index d.sram_free_list ≡ some (s, ss)
        → is_success answer ≡ false
        → (f : Fault) × (add_entry table key mask v word take_index answer c
            ≡ (exception f, with_entry i s ss d))
    unfolding add_entry take new_id add_sram_map write_result talk
    add_entry_failed answer f bad = elim (Bool-cases answer.written) [
      | inr unsent ↦ (Fault.write_failed, rw e (rw f (rw unsent refl)))
      | inl sent ↦ elim (Bool-cases (ltb answer.bytes_read 1)) [
        | inl unread ↦ (Fault.read_failed, rw e (rw f (rw sent (rw unread refl))))
        | inr read ↦ elim (Bool-cases (answer.bytes_read == 4)) [
          | inr part ↦ (Fault.too_small, rw e (rw f (rw sent (rw read (rw part refl)))))
          | inl whole ↦
              let refused : (answer.response == success) ≡ false = rw (sent, whole) at bad in
              (Fault.failed, rw e (rw f (rw sent (rw read (rw whole (rw refused refl))))))
        ]
      ]
    ]

  module _ (d : Configuration) (i s : ℕ) (ss : List Range) (h : s ≤ 131070)
      (w : word (sram_index2addr s) % 2 ^ 21 ≡ sram_index2addr s) where
    pub del_entry_lem :
        (give_index : ℕ → M (Unit {0})) (e : Configuration)
        → give_index i (returned i s ss d) ≡ (done tt, e)
        → e.srmap ≡ record { sram_addr = sram_index2addr s; id = d.next_id } ∷ d.srmap
        → del_entry table key
            (reply 8 success (word (sram_index2addr s)))
            (reply 4 success 0)
            give_index
            (with_entry i s ss d)
          ≡ (done tt, record e { srmap = d.srmap })
    unfolding del_entry look_up talk sram_read give del_sram_map without_addr
    del_entry_lem give_index e g m = rw w (
        rw (sram_index_back s h) (
          rw (==_refl (sram_index2addr s + 0x400000 + 12))
            (rw g (rw m (rw (==_refl (sram_index2addr s)) refl)))))

    pub query_entry_lem :
        query_entry table key (reply 8 success (word (sram_index2addr s))) (with_entry i s ss d) ≡ (
          done v,
          record (with_entry i s ss d) {
            sent = TcamCommand.query table key ∷ (with_entry i s ss d).sent;
          },
        )
    unfolding query_entry look_up talk sram_read
    query_entry_lem =
        let (w0, w1, w2) = read_back d.sram (sram_index2addr s + 0x400000) v.v0 v.v1 v.v2 i in
        rw w (rw w0 (rw w1 (rw w2 refl)))
