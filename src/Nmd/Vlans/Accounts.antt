-- ===== src/Nmd/Vlans/Accounts.antt =====
-- The account of the VLANs: the free list has exactly those that are not in use.
use onldaemons.Prelude.{
  ℕ, ◌≡◌, refl, Bool, true, false, not, ◌&&◌, ◌||◌, Option-cases, List, [], ◌∷◌, ◌++◌,
  ◌==◌ as nat_eq, arith, Bool-cases, inl, inr,
}
use onldaemons.Shared.SwitchTypes.{SwitchPort}
use onldaemons.Nmd.Vlans.{Session, VlanSet, mem, known, set_vlan, free_vlan, get_session}
use onldaemons.Nmd.Vlans.Clear.{
  no_ports, ports_on, remove_ports, give_back, clear_vlan_on, clear_if_empty, clear_on, clear_all,
  clear_empty, to_clear, clear_object, clear_session, settle, clear_found, remove_or_clear, no_ids,
  session_remove_vlan, delete_found, delete_vlan,
}

-- No id stands twice in the list.
abbrev pub NoRepeat : List ℕ → Type 0
NoRepeat [] = Unit {0}
NoRepeat (x ∷ xs) = (mem x xs ≡ false) × NoRepeat xs

pub record IsAccounted (n : ℕ) (st : VlanSet) : Type 0 where
  pub size : st.num_vlans ≡ n
  pub accounted : (id : ℕ) → known st id ≡ true → mem id st.free_vlans ≡ not (st.vlans id).in_use
  pub empty : (id : ℕ) → (st.vlans id).in_use ≡ false → no_ports (st.vlans id).ports ≡ true
  pub once : NoRepeat st.free_vlans

pub mem-append : (x z : ℕ) (ys : List ℕ) → mem x (ys ++ (z ∷ [])) ≡ (mem x ys || nat_eq x z)
unfolding mem
mem-append x z [] = ground arith
mem-append x z (y ∷ ys) = ground (arith, mem-append x z ys)

NoRepeat-append : (z : ℕ) (ys : List ℕ) → NoRepeat ys → mem z ys ≡ false → NoRepeat (ys ++ (z ∷ []))
unfolding mem
NoRepeat-append z [] u h = (refl, tt)
NoRepeat-append z (y ∷ ys) u h =
    (ground (arith, mem-append y z ys), NoRepeat-append z ys u.1 (ground arith))

no_removals :
    (sw : List ℕ) (ps : List SwitchPort) → no_ports ps ≡ true → no_ports (ports_on sw ps) ≡ true
unfolding ports_on
no_removals sw [] h = refl
no_removals sw (p ∷ ps) h = absurd (cc h)

module _ {n : ℕ} where
  pub give_back-IsAccounted :
      (id : ℕ) (st : VlanSet) → IsAccounted n st → IsAccounted n (give_back id st)
  unfolding give_back free_vlan
  give_back-IsAccounted id st w = elim (Bool-cases (mem id st.free_vlans)) [
    | inl e ↦ rw e (record {
      accounted = λ j k. let old = w.accounted j k in ground arith;
      size = w.size;
      empty = λ j h. let old = w.empty j in ground arith;
      once = w.once;
    })
    | inr e ↦ rw e (record {
      accounted = λ j k.
          let old = w.accounted j k in let now = mem-append j id st.free_vlans in ground arith;
      size = w.size;
      empty = λ j h. let old = w.empty j in ground arith;
      once = NoRepeat-append id st.free_vlans w.once e;
    })
  ]

  -- The list of sessions plays no part.
  pub with_sessions :
      (st : VlanSet) (ss : List Session)
      → IsAccounted n st
      → IsAccounted n (record st { sessions = ss })
  with_sessions st ss w = record {
    accounted = w.accounted;
    size = w.size;
    empty = w.empty;
    once = w.once;
  }

  -- A VLAN in use may change its ports.
  pub with_ports :
      (id : ℕ) (st : VlanSet) (ports : List SwitchPort)
      → (st.vlans id).in_use ≡ true
      → IsAccounted n st
      → IsAccounted n (set_vlan id (record (st.vlans id) { ports = ports }) st)
  with_ports id st ports used w = record {
    accounted = λ j k. let old = w.accounted j k in ground arith;
    size = w.size;
    empty = λ j h. let old = w.empty j in ground arith;
    once = w.once;
  }

  clear_vlan_on-IsAccounted :
      (sw : List ℕ) (id : ℕ) (st : VlanSet)
      → IsAccounted n st
      → IsAccounted n (clear_vlan_on sw id st).0
  unfolding clear_vlan_on
  clear_vlan_on-IsAccounted sw id st w =
      elim (Bool-cases (no_ports (ports_on sw (st.vlans id).ports))) [
        | inl e ↦ rw e w
        | inr e ↦
            let used : (st.vlans id).in_use ≡ true =
              (let quiet = w.empty id in
                let none_there = no_removals sw (st.vlans id).ports in ground arith) in
            rw e
              (elim (Bool-cases
                (no_ports (remove_ports (ports_on sw (st.vlans id).ports) (st.vlans id).ports))) [
                  | inl f ↦ rw f (give_back-IsAccounted id st w)
                  | inr f ↦ rw f (with_ports id st _ used w)
                ])
      ]

  clear_if_empty-IsAccounted :
      (id : ℕ) (st : VlanSet) → IsAccounted n st → IsAccounted n (clear_if_empty id st)
  unfolding clear_if_empty
  clear_if_empty-IsAccounted id st w =
      elim (Bool-cases ((st.vlans id).in_use && no_ports (st.vlans id).ports)) [
        | inl e ↦ rw e (give_back-IsAccounted id st w)
        | inr e ↦ rw e w
      ]

  clear_on-IsAccounted :
      (sw : List ℕ) (ids : List ℕ) (st : VlanSet)
      → IsAccounted n st
      → IsAccounted n (clear_on sw ids st).0
  unfolding clear_on
  clear_on-IsAccounted sw [] st w = w
  clear_on-IsAccounted sw (id ∷ ids) st w =
      clear_on-IsAccounted sw ids (clear_vlan_on sw id st).0 (clear_vlan_on-IsAccounted sw id st w)

  clear_all-IsAccounted :
      (send : List ℕ → Bool) (sws : List (List ℕ)) (ids : List ℕ) (st : VlanSet)
      → IsAccounted n st
      → IsAccounted n (clear_all send sws ids st).0
  unfolding clear_all
  clear_all-IsAccounted send [] ids st w = w
  clear_all-IsAccounted send (sw ∷ sws) ids st w =
      clear_all-IsAccounted send sws ids (clear_on sw ids st).0 (clear_on-IsAccounted sw ids st w)

  pub clear_empty-IsAccounted :
      (ids : List ℕ) (st : VlanSet) → IsAccounted n st → IsAccounted n (clear_empty ids st)
  unfolding clear_empty
  clear_empty-IsAccounted [] st w = w
  clear_empty-IsAccounted (id ∷ ids) st w =
      clear_empty-IsAccounted ids (clear_if_empty id st) (clear_if_empty-IsAccounted id st w)

  clear_object-IsAccounted :
      (send : List ℕ → Bool) (s : Session) (st : VlanSet)
      → IsAccounted n st
      → IsAccounted n (clear_object send s st).1
  unfolding clear_object
  clear_object-IsAccounted send s st w = elim (Bool-cases s.cleared) [
    | inl e ↦ rw e w
    | inr e ↦
        let ids = to_clear s.removed_vlans s.active_vlans in
        rw e (
          clear_empty-IsAccounted ids (clear_all send s.switches ids st).0
            (clear_all-IsAccounted send s.switches ids st w))
  ]

  settle-IsAccounted :
      (sid : List ℕ) (r : Session × VlanSet × Bool)
      → IsAccounted n r.1
      → IsAccounted n (settle sid r).0
  unfolding settle
  settle-IsAccounted sid (s, st, rtn) w = with_sessions st _ w

  pub clear_session-IsAccounted :
      (send : List ℕ → Bool) (sid : List ℕ) (st : VlanSet)
      → IsAccounted n st
      → IsAccounted n (clear_session send sid st).0
  unfolding clear_session clear_found
  clear_session-IsAccounted send sid st w = elim (Option-cases (get_session sid st)) [
    | inl e ↦ rw e w
    | inr (s, e) ↦
        rw e
          (settle-IsAccounted sid (clear_object send s st) (clear_object-IsAccounted send s st w))
  ]

  remove_or_clear-IsAccounted :
      (send : List ℕ → Bool) (s : Session) (st : VlanSet)
      → IsAccounted n st
      → IsAccounted n (remove_or_clear send s st).1
  unfolding remove_or_clear
  remove_or_clear-IsAccounted send s st w = elim (Bool-cases (no_ids s.active_vlans)) [
    | inl e ↦ rw e (clear_object-IsAccounted send s st w)
    | inr e ↦ rw e w
  ]

  pub delete_vlan-IsAccounted :
      (send : List ℕ → Bool) (id : ℕ) (sid : List ℕ) (st : VlanSet)
      → IsAccounted n st
      → IsAccounted n (delete_vlan send id sid st).0
  unfolding delete_vlan delete_found
  delete_vlan-IsAccounted send id sid st w = elim (Option-cases (get_session sid st)) [
    | inl e ↦ rw e w
    | inr (s, e) ↦ rw e (
        settle-IsAccounted sid (remove_or_clear send (session_remove_vlan id s) st)
          (remove_or_clear-IsAccounted send (session_remove_vlan id s) st w))
  ]
