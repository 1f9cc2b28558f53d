-- ===== src/Nmd/Vlans/Frees.antt =====
-- What clear_session makes of the VLANs of the session, and of the others.
use onldaemons.Prelude.{
  ℕ, ◌≡◌, ◌∙◌, ap, sym, refl, subst, Bool, true, false, not, ◌||◌, some, List, [], ◌∷◌, ◌++◌, All,
  ◌==◌ as nat_eq, ==_refl, arith, Bool-cases, inl, inr,
}
use onldaemons.Shared.SwitchTypes.{SwitchPort}
use onldaemons.Nmd.Vlans.{Vlan, Session, VlanSet, mem, mem_name, switch_of, get_session, known}
use onldaemons.Nmd.Vlans.Clear.{
  no_ports, clear_if_empty, clear_on, clear_all, clear_empty, to_clear, clear_object, settle,
  clear_found, clear_session,
}
use onldaemons.Nmd.Vlans.Accounts.{mem-append, IsAccounted, clear_session-IsAccounted}
use onldaemons.Nmd.Vlans.Steps.{
  Off, All-both, give_back-vlans, clear_on-All, clear_on-Off, clear_on-other,
}

clear_all-All :
    (P : SwitchPort → Type 0) (send : List ℕ → Bool) (sws : List (List ℕ)) (ids : List ℕ) (id : ℕ)
    (st : VlanSet)
    → All P (st.vlans id).ports
    → All P ((clear_all send sws ids st).0.vlans id).ports
unfolding clear_all
clear_all-All P send [] ids id st a = a
clear_all-All P send (sw ∷ sws) ids id st a =
    clear_all-All P send sws ids id (clear_on sw ids st).0 (clear_on-All P sw ids id st a)

-- The port is on none of the switches.
abbrev Away : List (List ℕ) → SwitchPort → Type 0
Away sws p = mem_name (switch_of p) sws ≡ false

All-Away : (ps : List SwitchPort) → All (Away []) ps
unfolding mem_name
All-Away [] = tt
All-Away (p ∷ ps) = (refl, All-Away ps)

Away-Off :
    (sw : List ℕ) (sws : List (List ℕ)) (p : SwitchPort) → Off sw p → Away sws p → Away (sw ∷ sws) p
unfolding mem_name
Away-Off sw sws p off away = rw off away

clear_all-Away :
    (send : List ℕ → Bool) (sws : List (List ℕ)) (ids : List ℕ) (id : ℕ) (st : VlanSet)
    → mem id ids ≡ true
    → All (Away sws) ((clear_all send sws ids st).0.vlans id).ports
unfolding clear_all
clear_all-Away send [] ids id st h = All-Away _
clear_all-Away send (sw ∷ sws) ids id st h =
    let st' = (clear_on sw ids st).0 in
    All-both (Away-Off sw sws) _
      (clear_all-All (Off sw) send sws ids id st' (clear_on-Off sw ids id st h))
      (clear_all-Away send sws ids id st' h)

none_left :
    (sws : List (List ℕ)) (ps : List SwitchPort)
    → All (λ p. mem_name (switch_of p) sws ≡ true) ps
    → All (Away sws) ps
    → no_ports ps ≡ true
none_left sws [] a b = refl
none_left sws (p ∷ ps) a b = absurd (let x = a.0 in let y = b.0 in cc (x, y))

clear_all-other :
    (send : List ℕ → Bool) (sws : List (List ℕ)) (ids : List ℕ) (id : ℕ) (st : VlanSet)
    → mem id ids ≡ false
    → (clear_all send sws ids st).0.vlans id ≡ st.vlans id
unfolding clear_all
clear_all-other send [] ids id st h = refl
clear_all-other send (sw ∷ sws) ids id st h =
    clear_all-other send sws ids id (clear_on sw ids st).0 h ∙ clear_on-other sw ids id st h

clear_if_empty-other :
    (j id : ℕ) (st : VlanSet) → nat_eq j id ≡ false → (clear_if_empty j st).vlans id ≡ st.vlans id
unfolding clear_if_empty
clear_if_empty-other j id st h = let back = give_back-vlans j id st in ground arith

clear_empty-other :
    (ids : List ℕ) (id : ℕ) (st : VlanSet)
    → mem id ids ≡ false
    → (clear_empty ids st).vlans id ≡ st.vlans id
unfolding clear_empty mem
clear_empty-other [] id st h = refl
clear_empty-other (j ∷ ids) id st h =
    clear_empty-other ids id (clear_if_empty j st) (ground arith)
    ∙ clear_if_empty-other j id st (ground arith)

clear_if_empty-vlans :
    (id : ℕ) (st : VlanSet)
    → no_ports (st.vlans id).ports ≡ true
    → ((clear_if_empty id st).vlans id).in_use ≡ false
unfolding clear_if_empty
clear_if_empty-vlans id st h = elim (Bool-cases (st.vlans id).in_use) [
  | inl u ↦
      let here = ==_refl id in
      rw (u, h) (ap (λ (v : Vlan). v.in_use) (give_back-vlans id id st) ∙ rw here refl)
  | inr u ↦ rw u u
]

clear_if_empty-none :
    (id : ℕ) (st : VlanSet) → (st.vlans id).in_use ≡ false → clear_if_empty id st ≡ st
unfolding clear_if_empty
clear_if_empty-none id st h = rw h refl

still_idle :
    (j id : ℕ) (st : VlanSet)
    → (st.vlans id).in_use ≡ false
    → ((clear_if_empty j st).vlans id).in_use ≡ false
still_idle j id st h = elim (Bool-cases (nat_eq j id)) [
  | inl e ↦
      let same : j ≡ id = ground arith in
      subst (λ i. ((clear_if_empty i st).vlans id).in_use ≡ false) (sym same)
        (ap (λ (z : VlanSet). (z.vlans id).in_use) (clear_if_empty-none id st h) ∙ h)
  | inr e ↦ ap (λ (v : Vlan). v.in_use) (clear_if_empty-other j id st e) ∙ h
]

idle_stays :
    (ids : List ℕ) (id : ℕ) (st : VlanSet)
    → (st.vlans id).in_use ≡ false
    → ((clear_empty ids st).vlans id).in_use ≡ false
unfolding clear_empty
idle_stays [] id st h = h
idle_stays (j ∷ ids) id st h = idle_stays ids id (clear_if_empty j st) (still_idle j id st h)

pub clear_empty-idle :
    (ids : List ℕ) (id : ℕ) (st : VlanSet)
    → mem id ids ≡ true
    → no_ports (st.vlans id).ports ≡ true
    → ((clear_empty ids st).vlans id).in_use ≡ false
unfolding clear_empty mem
clear_empty-idle [] id st m h = absurd (cc m)
clear_empty-idle (j ∷ ids) id st m h = elim (Bool-cases (nat_eq id j)) [
  | inl e ↦
      let same : j ≡ id = ground arith in
      idle_stays ids id (clear_if_empty j st) (
        subst (λ i. ((clear_if_empty i st).vlans id).in_use ≡ false) (sym same)
          (clear_if_empty-vlans id st h))
  | inr e ↦ clear_empty-idle ids id (clear_if_empty j st) (ground arith) (
      subst (λ (v : Vlan). no_ports v.ports ≡ true)
        (sym (clear_if_empty-other j id st (ground arith))) h)
]

mem-to_clear :
    (id : ℕ) (removed active : List ℕ)
    → mem id (to_clear removed active) ≡ (mem id removed || mem id active)
unfolding to_clear mem
mem-to_clear id removed [] = ground arith
mem-to_clear id removed (j ∷ active) = elim (Bool-cases (mem j removed)) [
  | inl e ↦ rw e (elim (Bool-cases (nat_eq id j)) [
    | inl f ↦
        let same : id ≡ j = ground arith in
        let there : mem id removed ≡ true = rw same e in
        mem-to_clear id removed active ∙ rw there refl
    | inr f ↦ mem-to_clear id removed active ∙ rw f refl
  ])
  | inr e ↦ rw e (
      mem-to_clear id (removed ++ (j ∷ [])) active
      ∙ (let more = mem-append id j removed in ground arith))
]

clear_session-steps :
    (send : List ℕ → Bool) (sid : List ℕ) (s : Session) (st : VlanSet)
    → get_session sid st ≡ some s
    → s.cleared ≡ false
    → (id : ℕ)
    → let ids = to_clear s.removed_vlans s.active_vlans in
      (clear_session send sid st).0.vlans id
      ≡ (clear_empty ids (clear_all send s.switches ids st).0).vlans id
unfolding clear_session clear_found settle clear_object
clear_session-steps send sid s st found live id = rw (found, live) refl

-- A session that is not cleared has its VLANs, active or removed, only on switches that it knows. Then
-- clear_session, whichever commands fail, leaves each of them out of use and in the free list, and
-- leaves every other VLAN as it was.
pub clear_session-vlans :
    (n : ℕ) (send : List ℕ → Bool) (sid : List ℕ) (s : Session) (st : VlanSet)
    → IsAccounted n st
    → get_session sid st ≡ some s
    → s.cleared ≡ false
    → ((id : ℕ)
        → (mem id s.removed_vlans || mem id s.active_vlans) ≡ true
        → All (λ p. mem_name (switch_of p) s.switches ≡ true) (st.vlans id).ports)
    → let (st', _) = clear_session send sid st in
      ((id : ℕ)
        → (mem id s.removed_vlans || mem id s.active_vlans) ≡ true
        → known st' id ≡ true
        → ((st'.vlans id).in_use ≡ false) × (mem id st'.free_vlans ≡ true))
      × ((id : ℕ)
          → (mem id s.removed_vlans || mem id s.active_vlans) ≡ false
          → st'.vlans id ≡ st.vlans id)
clear_session-vlans n send sid s st w found live covered =
    let ids = to_clear s.removed_vlans s.active_vlans in
    let after = clear_session-steps send sid s st found live in
    let idle = λ (id : ℕ) (m : (mem id s.removed_vlans || mem id s.active_vlans) ≡ true).
      ap (λ (v : Vlan). v.in_use) (after id)
      ∙ clear_empty-idle ids id (clear_all send s.switches ids st).0
          (mem-to_clear id s.removed_vlans s.active_vlans ∙ m)
          (none_left s.switches _ (clear_all-All _ send s.switches ids id st (covered id m)) (
            clear_all-Away send s.switches ids id st
              (mem-to_clear id s.removed_vlans s.active_vlans ∙ m))) in
    (
      λ id m k. (
        idle id m,
        (clear_session-IsAccounted send sid st w).accounted id k ∙ ap not (idle id m),
      ),
      λ id m.
          let out = mem-to_clear id s.removed_vlans s.active_vlans ∙ m in
          after id
          ∙ clear_empty-other ids id (clear_all send s.switches ids st).0 out
          ∙ clear_all-other send s.switches ids id st out,
    )
