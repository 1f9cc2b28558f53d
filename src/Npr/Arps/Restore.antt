-- ===== src/Npr/Arps/Restore.antt =====
-- An ARP entry that is added, updated, queried and deleted.
use onldaemons.Prelude.{ℕ, ◌+◌, ◌%◌, ◌^◌, ◌≤◌, ◌≡◌, refl, List, ◌∷◌, some, arith, ==_refl, ◌∙◌}
use onldaemons.Npr.FreeList.{Range, get_free_index, add_free_index}
use onldaemons.Npr.FreeList.Chain.{Chain, add_free_index-get_free_index}
use onldaemons.Npr.Tcam.{
  Table, TcamCommand, success, Answer, done, Configuration, reply, last_result, SameLists,
  sram_index2addr, take, give, write_result, talk, look_up, sram_read, sram_write, update,
}
use onldaemons.Npr.Entries.Stored.{taken, sram_index2addr-lt, sram_index_back}
use onldaemons.Npr.Arps.{ArpResult, arp_mask, add_arp, del_arp, update_arp, query_arp}

abbrev stored :
    List ℕ → List ℕ → ArpResult → ℕ → ℕ → List Range → List Range → Configuration → Configuration
stored key mask r i s rs ss c =
    let addr = sram_index2addr s + 0x400000 in
    record c {
      arps = rs;
      sram_free_list = ss;
      sram =
          update (update (update (update c.sram addr r.v0) (addr + 4) r.v1) (addr + 8) 0)
            (addr + 12) i;
      sent = TcamCommand.add Table.arp key (arp_mask mask) (sram_index2addr s) i ∷ c.sent;
    }

abbrev updated : List ℕ → ArpResult → ℕ → Configuration → Configuration
updated key r s d =
    let addr = sram_index2addr s + 0x400000 in
    record d {
      sram = update (update d.sram addr r.v0) (addr + 4) r.v1;
      sent = TcamCommand.query Table.arp key ∷ d.sent;
    }

-- The two words that were written last, and the fourth word below them.
read_updated :
    (f : ℕ → ℕ) (a v0 v1 : ℕ)
    → let g = update (update f a v0) (a + 4) v1 in
      (g a ≡ v0) × (g (a + 4) ≡ v1) × (g (a + 12) ≡ f (a + 12))
read_updated f a v0 v1 = (ground arith, ground arith, ground arith)

same_word : (s : ℕ) → s ≤ 131070 → sram_index2addr s % 2 ^ 21 ≡ sram_index2addr s
same_word s h = omega (arith, sram_index2addr-lt s h)

-- The answer to a query for the entry that was added last in `c`.
abbrev pub found : Configuration → Answer
found c = reply 8 success (last_result c.sent)

-- An ARP entry is added where its list and SRAM's are in order and have room, updated with two other
-- words, queried and deleted. All four succeed, if the TCAM daemon answers that they do and gives the
-- result that was sent with the entry. The query returns the two words of the update, and afterwards
-- the free indexes of every table, those of SRAM and the ids of results are what they were before.
pub del_arp-update_arp-add_arp :
    (key mask : List ℕ) (r r' : ArpResult) (c : Configuration) (i s : ℕ) (rs ss : List Range)
    → Chain 1 16382 c.arps
    → get_free_index c.arps ≡ some (i, rs)
    → Chain 1 131070 c.sram_free_list
    → get_free_index c.sram_free_list ≡ some (s, ss)
    → (d d' d'' e : Configuration) × (add_arp key mask r (reply 4 success 0) c ≡ (done tt, d))
      × (update_arp key r' (found d) d ≡ (done tt, d'))
      × (query_arp key (found d') d' ≡ (done r', d''))
      × (del_arp key (found d'') (reply 4 success 0) d'' ≡ (done tt, e))
      × SameLists c e
unfolding add_arp update_arp query_arp del_arp take give write_result talk look_up sram_read
    sram_write
del_arp-update_arp-add_arp key mask r r' c i s rs ss o e o' e' =
    let t = taken 1 131070 _ ss s (omega arith) o' e' in
    let w = same_word s t.top in
    let d = stored key mask r i s rs ss c in
    let d' = updated key r' s d in
    let d'' = record d' { sent = TcamCommand.query Table.arp key ∷ d'.sent } in
    let a = sram_index2addr s + 0x400000 in
    let (w0, w1, w3) = read_updated d.sram a r'.v0 r'.v1 in
    let own : d.sram (a + 12) ≡ i = rw (==_refl (a + 12)) refl in
    let index : d''.sram (a + 12) ≡ i = w3 ∙ own in
    (
      d,
      d',
      d'',
      record d'' {
        sram_free_list = add_free_index s ss;
        arps = add_free_index i rs;
        sent = TcamCommand.del Table.arp i ∷ TcamCommand.query Table.arp key ∷ d''.sent;
      },
      rw e (rw e' refl),
      rw w refl,
      rw w (rw w0 (rw w1 refl)),
      rw w (rw index (rw (sram_index_back s t.top) refl)),
      record {
        srmap = refl;
        sram_free_list =
            add_free_index-get_free_index 1 131070 _ (omega arith) (omega arith) o' s ss e';
        mc_routes = λ j. refl;
        uc_routes = λ j. refl;
        pfilters = λ j. refl;
        afilters = λ j. refl;
        arps = add_free_index-get_free_index 1 16382 _ (omega arith) (omega arith) o i rs e;
      },
    )
