-- ===== src/Nmd/Vlans/Steps.antt =====
-- What the commands of clear_session make of the ports of a VLAN.
use onldaemons.Prelude.{
  ℕ, ◌≡◌, ◌⊎◌, ◌∙◌, ap, sym, refl, subst, true, false, List, [], ◌∷◌, All, ◌==◌ as nat_eq, ==_refl,
  if◌then◌else◌, arith, Bool-cases, inl, inr,
}
use onldaemons.Shared.NccpString.{same_bytes}
use onldaemons.Shared.NccpString.Laws.{==_iff_get_string}
use onldaemons.Shared.SwitchTypes.{SwitchPort, ◌==◌ as same_port}
use onldaemons.Nmd.Vlans.{Vlan, VlanSet, mem, switch_of, unused_vlan, free_vlan}
use onldaemons.Nmd.Vlans.Ports.{remove_port}
use onldaemons.Nmd.Vlans.Clear.{
  no_ports, ports_on, remove_ports, give_back, clear_vlan_on, clear_on,
}

-- The port is not on the switch.
abbrev pub Off : List ℕ → SwitchPort → Type 0
Off sw p = same_bytes (switch_of p) sw ≡ false

abbrev In : SwitchPort → List SwitchPort → Type 0
In p [] = true ≡ false
In p (q ∷ qs) = (p ≡ q) ⊎ In p qs

module _ {P Q R : SwitchPort → Type 0} where
  pub All-both :
      (f : (p : SwitchPort) → P p → Q p → R p) (ps : List SwitchPort)
      → All P ps
      → All Q ps
      → All R ps
  All-both f [] a b = tt
  All-both f (p ∷ ps) a b = (f p a.0 b.0, All-both f ps a.1 b.1)

module _ (P : SwitchPort → Type 0) where
  remove_port-All : (g : SwitchPort) (ps : List SwitchPort) → All P ps → All P (remove_port g ps)
  unfolding remove_port
  remove_port-All g [] a = tt
  remove_port-All g (p ∷ ps) a = elim (Bool-cases (same_port p g)) [
    | inl e ↦ rw e (remove_port-All g ps a.1)
    | inr e ↦ rw e (a.0, remove_port-All g ps a.1)
  ]

  remove_ports-All : (gone ps : List SwitchPort) → All P ps → All P (remove_ports gone ps)
  unfolding remove_ports
  remove_ports-All [] ps a = a
  remove_ports-All (g ∷ gone) ps a =
      remove_ports-All gone (remove_port g ps) (remove_port-All g ps a)

same_port_refl : (p : SwitchPort) → same_port p p ≡ true
unfolding same_port
same_port_refl p =
    let name = (==_iff_get_string p.switchid p.switchid).1 refl in ground (arith, ==_refl p.port)

stays :
    (sw : List ℕ) (p g : SwitchPort) (gone : List SwitchPort)
    → same_port p g ≡ false
    → Off sw p ⊎ In p (g ∷ gone)
    → Off sw p ⊎ In p gone
stays sw p g gone e (inl off) = inl off
stays sw p g gone e (inr (inr i)) = inr i
stays sw p g gone e (inr (inl q)) = absurd (let r = same_port_refl p in cc (e, q, r))

-- A port that stays is not among those that go.
remove_port-In :
    (sw : List ℕ) (g : SwitchPort) (gone ps : List SwitchPort)
    → All (λ p. Off sw p ⊎ In p (g ∷ gone)) ps
    → All (λ p. Off sw p ⊎ In p gone) (remove_port g ps)
unfolding remove_port
remove_port-In sw g gone [] a = tt
remove_port-In sw g gone (p ∷ ps) a = elim (Bool-cases (same_port p g)) [
  | inl e ↦ rw e (remove_port-In sw g gone ps a.1)
  | inr e ↦ rw e (stays sw p g gone e a.0, remove_port-In sw g gone ps a.1)
]

remove_ports-Off :
    (sw : List ℕ) (gone ps : List SwitchPort)
    → All (λ p. Off sw p ⊎ In p gone) ps
    → All (Off sw) (remove_ports gone ps)
unfolding remove_ports
remove_ports-Off sw [] [] a = tt
remove_ports-Off sw [] (p ∷ ps) a = (off a.0, remove_ports-Off sw [] ps a.1)
  where
    off : Off sw p ⊎ In p [] → Off sw p
    off (inl h) = h
    off (inr i) = absurd (cc i)
remove_ports-Off sw (g ∷ gone) ps a =
    remove_ports-Off sw gone (remove_port g ps) (remove_port-In sw g gone ps a)

later :
    (sw : List ℕ) (q : SwitchPort) (gone : List SwitchPort) (p : SwitchPort)
    → Off sw p ⊎ In p gone
    → Off sw p ⊎ In p (q ∷ gone)
later sw q gone p (inl h) = inl h
later sw q gone p (inr i) = inr (inr i)

ports_on-In : (sw : List ℕ) (ps : List SwitchPort) → All (λ p. Off sw p ⊎ In p (ports_on sw ps)) ps
unfolding ports_on
ports_on-In sw [] = tt
ports_on-In sw (p ∷ ps) = elim (Bool-cases (same_bytes (switch_of p) sw)) [
  | inl e ↦
      let all : ports_on sw (p ∷ ps) ≡ p ∷ ports_on sw ps = rw e refl in
      subst (λ gone. All (λ q. Off sw q ⊎ In q gone) (p ∷ ps)) (sym all)
        (
          inr (inl refl),
          All-both (λ q a b. later sw p (ports_on sw ps) q a) ps (ports_on-In sw ps)
              (ports_on-In sw ps),
        )
  | inr e ↦
      let all : ports_on sw (p ∷ ps) ≡ ports_on sw ps = rw e refl in
      subst (λ gone. All (λ q. Off sw q ⊎ In q gone) (p ∷ ps)) (sym all) (inl e, ports_on-In sw ps)
]

cleared_ports-Off :
    (sw : List ℕ) (ps : List SwitchPort) → All (Off sw) (remove_ports (ports_on sw ps) ps)
cleared_ports-Off sw ps = remove_ports-Off sw (ports_on sw ps) ps (ports_on-In sw ps)

pub no_ports-nil : (ps : List SwitchPort) → no_ports ps ≡ true → ps ≡ []
no_ports-nil [] h = refl
no_ports-nil (p ∷ ps) h = absurd (cc h)

pub give_back-vlans :
    (j id : ℕ) (st : VlanSet)
    → (give_back j st).vlans id ≡ (if nat_eq j id then unused_vlan else st.vlans id)
unfolding give_back free_vlan
give_back-vlans j id st = ground arith

-- What one command does to the VLAN `id`.
clear_vlan_on-other :
    (sw : List ℕ) (j id : ℕ) (st : VlanSet)
    → nat_eq j id ≡ false
    → (clear_vlan_on sw j st).0.vlans id ≡ st.vlans id
unfolding clear_vlan_on
clear_vlan_on-other sw j id st h = let back = give_back-vlans j id st in ground arith

clear_vlan_on-ports :
    (sw : List ℕ) (id : ℕ) (st : VlanSet)
    → ((clear_vlan_on sw id st).0.vlans id).ports
      ≡ remove_ports (ports_on sw (st.vlans id).ports) (st.vlans id).ports
unfolding clear_vlan_on remove_ports
clear_vlan_on-ports sw id st =
    let ps = (st.vlans id).ports in
    let left = remove_ports (ports_on sw ps) ps in
    elim (Bool-cases (no_ports (ports_on sw ps))) [
      | inl e ↦ rw e (sym (ap (λ g. remove_ports g ps) (no_ports-nil (ports_on sw ps) e)))
      | inr e ↦ elim (Bool-cases (no_ports left)) [
        | inl f ↦
            let here = ==_refl id in
            rw (e, f)
              (ap (λ (v : Vlan). v.ports) (give_back-vlans id id st)
                ∙ rw here (sym (no_ports-nil left f)))
        | inr f ↦ let here = ==_refl id in rw (e, f, here) refl
      ]
    ]

-- Ports only go.
clear_vlan_on-All :
    (P : SwitchPort → Type 0) (sw : List ℕ) (j id : ℕ) (st : VlanSet)
    → All P (st.vlans id).ports
    → All P ((clear_vlan_on sw j st).0.vlans id).ports
clear_vlan_on-All P sw j id st a = elim (Bool-cases (nat_eq j id)) [
  | inl e ↦
      let same : j ≡ id = ground arith in
      subst (λ i. All P ((clear_vlan_on sw i st).0.vlans id).ports) (sym same)
        (subst (All P) (sym (clear_vlan_on-ports sw id st)) (remove_ports-All P _ _ a))
  | inr e ↦ subst (λ (v : Vlan). All P v.ports) (sym (clear_vlan_on-other sw j id st e)) a
]

pub clear_on-All :
    (P : SwitchPort → Type 0) (sw ids : List ℕ) (id : ℕ) (st : VlanSet)
    → All P (st.vlans id).ports
    → All P ((clear_on sw ids st).0.vlans id).ports
unfolding clear_on
clear_on-All P sw [] id st a = a
clear_on-All P sw (j ∷ ids) id st a =
    clear_on-All P sw ids id (clear_vlan_on sw j st).0 (clear_vlan_on-All P sw j id st a)

pub clear_on-Off :
    (sw ids : List ℕ) (id : ℕ) (st : VlanSet)
    → mem id ids ≡ true
    → All (Off sw) ((clear_on sw ids st).0.vlans id).ports
unfolding clear_on mem
clear_on-Off sw [] id st h = absurd (cc h)
clear_on-Off sw (j ∷ ids) id st h = elim (Bool-cases (nat_eq id j)) [
  | inl e ↦
      let same : j ≡ id = ground arith in
      clear_on-All (Off sw) sw ids id (clear_vlan_on sw j st).0 (
        subst (λ i. All (Off sw) ((clear_vlan_on sw i st).0.vlans id).ports) (sym same)
          (subst (All (Off sw)) (sym (clear_vlan_on-ports sw id st)) (cleared_ports-Off sw _)))
  | inr e ↦ clear_on-Off sw ids id (clear_vlan_on sw j st).0 (ground arith)
]

pub clear_on-other :
    (sw ids : List ℕ) (id : ℕ) (st : VlanSet)
    → mem id ids ≡ false
    → (clear_on sw ids st).0.vlans id ≡ st.vlans id
unfolding clear_on mem
clear_on-other sw [] id st h = refl
clear_on-other sw (j ∷ ids) id st h =
    clear_on-other sw ids id (clear_vlan_on sw j st).0 (ground arith)
    ∙ clear_vlan_on-other sw j id st (ground arith)
