-- ===== src/Nmd/Vlans/Keeps.antt =====
-- Taking VLANs back leaves the list of sessions and the number of VLANs.
use onldaemons.Prelude.{ℕ, ◌≡◌, refl, Bool, ◌&&◌, List, [], ◌∷◌, Bool-cases, inl, inr, ◌∙◌}
use onldaemons.Nmd.Vlans.{Session, VlanSet, free_vlan, mem}
use onldaemons.Nmd.Vlans.Clear.{
  no_ports, ports_on, remove_ports, give_back, clear_vlan_on, clear_if_empty, clear_on, clear_all,
  clear_empty, to_clear, clear_object,
}

-- The list of sessions and the number of VLANs are as before.
abbrev pub Keeps : VlanSet → VlanSet → Type 0
Keeps st st' = (st'.sessions ≡ st.sessions) × (st'.num_vlans ≡ st.num_vlans)

give_back-Keeps : (id : ℕ) (st : VlanSet) → Keeps st (give_back id st)
unfolding give_back free_vlan
give_back-Keeps id st = elim (Bool-cases (mem id st.free_vlans)) [
  | inl e ↦ rw e (refl, refl)
  | inr e ↦ rw e (refl, refl)
]

clear_vlan_on-Keeps : (sw : List ℕ) (id : ℕ) (st : VlanSet) → Keeps st (clear_vlan_on sw id st).0
unfolding clear_vlan_on
clear_vlan_on-Keeps sw id st =
    let ports = (st.vlans id).ports in
    elim (Bool-cases (no_ports (ports_on sw ports))) [
      | inl e ↦ rw e (refl, refl)
      | inr e ↦ elim (Bool-cases (no_ports (remove_ports (ports_on sw ports) ports))) [
        | inl f ↦ rw (e, f) (give_back-Keeps id st)
        | inr f ↦ rw (e, f) (refl, refl)
      ]
    ]

clear_if_empty-Keeps : (id : ℕ) (st : VlanSet) → Keeps st (clear_if_empty id st)
unfolding clear_if_empty
clear_if_empty-Keeps id st =
    elim (Bool-cases ((st.vlans id).in_use && no_ports (st.vlans id).ports)) [
      | inl e ↦ rw e (give_back-Keeps id st)
      | inr e ↦ rw e (refl, refl)
    ]

clear_on-Keeps : (sw : List ℕ) (ids : List ℕ) (st : VlanSet) → Keeps st (clear_on sw ids st).0
unfolding clear_on
clear_on-Keeps sw [] st = (refl, refl)
clear_on-Keeps sw (id ∷ ids) st =
    let first = clear_vlan_on-Keeps sw id st in
    let rest = clear_on-Keeps sw ids (clear_vlan_on sw id st).0 in
    (rest.0 ∙ first.0, rest.1 ∙ first.1)

clear_all-Keeps :
    (send : List ℕ → Bool) (sws : List (List ℕ)) (ids : List ℕ) (st : VlanSet)
    → Keeps st (clear_all send sws ids st).0
unfolding clear_all
clear_all-Keeps send [] ids st = (refl, refl)
clear_all-Keeps send (sw ∷ sws) ids st =
    let first = clear_on-Keeps sw ids st in
    let rest = clear_all-Keeps send sws ids (clear_on sw ids st).0 in
    (rest.0 ∙ first.0, rest.1 ∙ first.1)

clear_empty-Keeps : (ids : List ℕ) (st : VlanSet) → Keeps st (clear_empty ids st)
unfolding clear_empty
clear_empty-Keeps [] st = (refl, refl)
clear_empty-Keeps (id ∷ ids) st =
    let first = clear_if_empty-Keeps id st in
    let rest = clear_empty-Keeps ids (clear_if_empty id st) in (rest.0 ∙ first.0, rest.1 ∙ first.1)

pub clear_object-Keeps :
    (send : List ℕ → Bool) (s : Session) (st : VlanSet) → Keeps st (clear_object send s st).1
unfolding clear_object
clear_object-Keeps send s st = elim (Bool-cases s.cleared) [
  | inl e ↦ rw e (refl, refl)
  | inr e ↦
      let ids = to_clear s.removed_vlans s.active_vlans in
      let first = clear_all-Keeps send s.switches ids st in
      let rest = clear_empty-Keeps ids (clear_all send s.switches ids st).0 in
      rw e (rest.0 ∙ first.0, rest.1 ∙ first.1)
]
