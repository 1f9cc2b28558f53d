-- ===== src/Nmd/Vlans/Alloc.antt =====
-- Giving VLANs away: the start of the daemon, add_vlan, and what initialize_vlans does to the account.
use onldaemons.Prelude.{
  ℕ, zero, suc, ◌+◌, ◌<◌, ◌≡◌, ◌∙◌, ap, refl, subst, true, false, not, ◌&&◌, List, [], ◌∷◌, ltb,
  leb, ◌==◌ as nat_eq, ==_refl, arith, Bool-cases, inl, inr,
}
use onldaemons.Nmd.Vlans.{
  Vlan, Session, VlanSet, mem, known, set_vlan, new_vlan_set, ids_from, claim_vlan, give_vlan,
  take_free, alloc_vlan, add_vlan, no_free_vlans,
}
use onldaemons.Nmd.Vlans.Clear.{initialize_vlans}
use onldaemons.Nmd.Vlans.Accounts.{NoRepeat, IsAccounted}

mem-ids_from : (j i n : ℕ) → mem j (ids_from i n) ≡ (leb i j && ltb j (i + n))
unfolding mem ids_from
mem-ids_from j i zero = ground arith
mem-ids_from j i (suc n) = ground (arith, mem-ids_from j (i + 1) n)

NoRepeat-ids_from : (i n : ℕ) → NoRepeat (ids_from i n)
unfolding ids_from
NoRepeat-ids_from i zero = tt
NoRepeat-ids_from i (suc n) =
    (ground (arith, mem-ids_from i (i + 1) n), NoRepeat-ids_from (i + 1) n)

pub new_vlan_set-IsAccounted : (n : ℕ) → IsAccounted n (new_vlan_set n)
unfolding new_vlan_set
new_vlan_set-IsAccounted n = record {
  accounted = λ j k. let all = mem-ids_from j 2 n in ground arith;
  size = refl;
  empty = λ j h. refl;
  once = NoRepeat-ids_from 2 n;
}

module _ {n : ℕ} where
  -- The VLAN at the front of the list is given away.
  given :
      (sid : List ℕ) (id : ℕ) (ids : List ℕ) (v : Vlan) (st : VlanSet) (ss : List Session)
      → v.in_use ≡ true
      → st.free_vlans ≡ id ∷ ids
      → IsAccounted n st
      → IsAccounted n (record (set_vlan id v st) { free_vlans = ids; sessions = ss })
  unfolding mem
  given sid id ids v st ss used front w =
      let u : NoRepeat (id ∷ ids) = subst NoRepeat front w.once in
      record {
        accounted = λ j k.
            let old : mem j (id ∷ ids) ≡ not (st.vlans j).in_use =
              subst (λ z. mem j z ≡ not (st.vlans j).in_use) front (w.accounted j k) in
            let out = u.0 in ground arith;
        size = w.size;
        empty = λ j h. let old = w.empty j in ground arith;
        once = u.1;
      }

  -- An id of no VLAN at the front of the list is lost.
  popped :
      (id : ℕ) (ids : List ℕ) (st : VlanSet)
      → known st id ≡ false
      → st.free_vlans ≡ id ∷ ids
      → IsAccounted n st
      → IsAccounted n (record st { free_vlans = ids })
  unfolding mem
  popped id ids st out front w =
      let u : NoRepeat (id ∷ ids) = subst NoRepeat front w.once in
      record {
        accounted = λ j k.
            let old : mem j (id ∷ ids) ≡ not (st.vlans j).in_use =
              subst (λ z. mem j z ≡ not (st.vlans j).in_use) front (w.accounted j k) in
            ground arith;
        size = w.size;
        empty = w.empty;
        once = u.1;
      }

  pub front_unused :
      (id : ℕ) (ids : List ℕ) (st : VlanSet)
      → known st id ≡ true
      → st.free_vlans ≡ id ∷ ids
      → IsAccounted n st
      → (st.vlans id).in_use ≡ false
  unfolding mem
  front_unused id ids st k front w =
      let old : mem id (id ∷ ids) ≡ not (st.vlans id).in_use =
        subst (λ z. mem id z ≡ not (st.vlans id).in_use) front (w.accounted id k) in
      ground arith

  take_free-IsAccounted :
      (sid ids : List ℕ) (st : VlanSet)
      → st.free_vlans ≡ ids
      → IsAccounted n st
      → IsAccounted n (take_free sid ids st).0
  unfolding take_free give_vlan claim_vlan
  take_free-IsAccounted sid [] st front w = w
  take_free-IsAccounted sid (id ∷ ids) st front w = elim (Bool-cases (known st id)) [
    | inl e ↦
        let idle = front_unused id ids st e front w in
        rw (e, idle) (given sid id ids _ st _ refl front w)
    | inr e ↦ rw e (popped id ids st e front w)
  ]

  pub add_vlan-IsAccounted :
      (sid : List ℕ) (st : VlanSet) → IsAccounted n st → IsAccounted n (add_vlan sid st).0
  unfolding add_vlan alloc_vlan
  add_vlan-IsAccounted sid st w = take_free-IsAccounted sid st.free_vlans st refl w

-- A known id at the front of the list is the one that add_vlan returns: it was in no use, it is now in
-- use by the session that asked and no longer free, and every other VLAN stays as it was.
pub add_vlan-front :
    (n : ℕ) (sid : List ℕ) (id : ℕ) (ids : List ℕ) (st : VlanSet)
    → IsAccounted n st
    → st.free_vlans ≡ id ∷ ids
    → known st id ≡ true
    → id < no_free_vlans
    → let (st', found, ok) = add_vlan sid st in
      ((st.vlans id).in_use ≡ false)
      × (found ≡ id)
      × (ok ≡ true)
      × ((st'.vlans id).in_use ≡ true)
      × ((st'.vlans id).session_id ≡ sid)
      × (mem id st'.free_vlans ≡ false)
      × ((j : ℕ) → nat_eq id j ≡ false → st'.vlans j ≡ st.vlans j)
unfolding add_vlan alloc_vlan take_free give_vlan claim_vlan
add_vlan-front n sid id ids st w front k small =
    let idle = front_unused id ids st k front w in
    let here = ==_refl id in
    let u : NoRepeat (id ∷ ids) = subst NoRepeat front w.once in
    let valid : nat_eq id no_free_vlans ≡ false = ground arith in
    (
      idle,
      rw (front, k, idle) refl,
      rw (front, k, idle, valid) refl,
      rw (front, k, idle, here) refl,
      rw (front, k, idle, here) refl,
      rw (front, k, idle) u.0,
      λ j e. rw (front, k, idle, e) refl,
    )

-- A VLAN that is in use when initialize_vlans runs is lost: it is neither in use nor in the free list
-- afterwards.
pub initialize_vlans_loses :
    (n : ℕ) (st : VlanSet) (id : ℕ)
    → IsAccounted n st
    → known st id ≡ true
    → (st.vlans id).in_use ≡ true
    → let st' = initialize_vlans st in
      ((st'.vlans id).in_use ≡ false) × (mem id st'.free_vlans ≡ false)
unfolding initialize_vlans
initialize_vlans_loses n st id w k used = (rw k refl, w.accounted id k ∙ ap not used)
