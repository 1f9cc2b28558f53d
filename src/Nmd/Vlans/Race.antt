-- ===== src/Nmd/Vlans/Race.antt =====
-- Two handlers at once: session::clear_session holds no lock that add_vlan takes, and waits for its
-- commands between taking the ports away and the last loop over the VLANs.
use onldaemons.Prelude.{
  ℕ, ◌<◌, ◌≡◌, ◌∙◌, ap, sym, refl, ◌+◌, leb, ltb, ◌&&◌, subst, true, false, not, List, ◌∷◌, ==_refl,
}
use onldaemons.Nmd.Vlans.{
  VlanSet, mem, known, add_vlan, alloc_vlan, take_free, give_vlan, claim_vlan, no_free_vlans,
}
use onldaemons.Nmd.Vlans.Clear.{no_ports, clear_empty}
use onldaemons.Nmd.Vlans.Accounts.{IsAccounted, clear_empty-IsAccounted}
use onldaemons.Nmd.Vlans.Alloc.{front_unused, add_vlan-front, add_vlan-IsAccounted}
use onldaemons.Nmd.Vlans.Frees.{clear_empty-idle}

add_vlan-ports :
    (n : ℕ) (sid : List ℕ) (id : ℕ) (ids : List ℕ) (st : VlanSet)
    → IsAccounted n st
    → st.free_vlans ≡ id ∷ ids
    → known st id ≡ true
    → ((add_vlan sid st).0.vlans id).ports ≡ (st.vlans id).ports
unfolding add_vlan alloc_vlan take_free give_vlan claim_vlan
add_vlan-ports n sid id ids st w front k =
    let idle = front_unused id ids st k front w in
    let here = ==_refl id in rw (front, k, idle, here) refl

-- While a session's VLANs are cleared, and after a VLAN of it has gone to the front of the free list,
-- add_vlan gives this VLAN to another session. The last loop of the first session's clear_session then
-- takes it away from the second: it is out of use and in the free list once more, to be given to a
-- third session.
pub clear_empty-add_vlan :
    (n : ℕ) (sid : List ℕ) (id : ℕ) (ids cleared : List ℕ) (st : VlanSet)
    → IsAccounted n st
    → st.free_vlans ≡ id ∷ ids
    → known st id ≡ true
    → id < no_free_vlans
    → mem id cleared ≡ true
    → let (st', found, ok) = add_vlan sid st in
      (ok ≡ true)
      × (found ≡ id)
      × ((st'.vlans id).session_id ≡ sid)
      × (((clear_empty cleared st').vlans id).in_use ≡ false)
      × (mem id (clear_empty cleared st').free_vlans ≡ true)
clear_empty-add_vlan n sid id ids cleared st w front k small m =
    let given = add_vlan-front n sid id ids st w front k small in
    let idle = front_unused id ids st k front w in
    let same = add_vlan-ports n sid id ids st w front k in
    let st' = (add_vlan sid st).0 in
    let empty : no_ports (st'.vlans id).ports ≡ true = ap no_ports same ∙ w.empty id idle in
    let taken = clear_empty-idle cleared id st' m empty in
    let w' = clear_empty-IsAccounted cleared st' (add_vlan-IsAccounted sid st w) in
    (
      given.2,
      given.1,
      given.4,
      taken,
      w'.accounted id (subst (λ m. (leb 2 id && ltb id (m + 2)) ≡ true) (w.size ∙ sym w'.size) k)
          ∙ ap not taken,
    )
