-- ===== src/Nmd/Vlans/Examples.antt =====
-- The theorems on VLANs at concrete requests, and runs of the daemon.
use onldaemons.Prelude.{
  ℕ, ◌≡◌, refl, Bool, true, false, ◌||◌, some, List, [], ◌∷◌, All, arith, Bool-cases, inl, inr,
  ◌==◌ as nat_eq, if◌then◌else◌,
}
use onldaemons.Prelude.Codes.{codes}
use onldaemons.Shared.NccpString.{get_string, same_bytes}
use onldaemons.Shared.SwitchTypes.{SwitchPort}
use onldaemons.Nmd.Vlans.{
  Session, VlanSet, mem, mem_name, switch_of, known, new_vlan_set, ids_from, add_vlan, get_session,
  unused_vlan,
}
use onldaemons.Nmd.Vlans.Clear.{clear_session, clear_empty, initialize_vlans}
use onldaemons.Nmd.Vlans.Accounts.{IsAccounted}
use onldaemons.Nmd.Vlans.Frees.{clear_session-vlans}
use onldaemons.Nmd.Vlans.Alloc.{new_vlan_set-IsAccounted, add_vlan-front, initialize_vlans_loses}
use onldaemons.Nmd.Vlans.Race.{clear_empty-add_vlan}
use onldaemons.Nmd.Vlans.Handlers.{
  NmdRequest, add_vlan_req, add_to_vlan_req, delete_vlan_req, end_session_req, initialize_req,
  delete_from_vlan_req, start_session_req, run, all_name_vlans, all_keep_vlans, run-OwnsVlans,
  run-IsAccounted,
}
use onldaemons.Nmd.Vlans.Lookups.{OwnsVlans}

abbrev port : SwitchPort
port = record {
  switchid = record { nccp_str = codes "sw1" };
  port = 4;
  is_interswitch_port = false;
  pass_tag = false;
}

abbrev works : List ℕ → Bool
works sw = true

abbrev morning : List NmdRequest
morning =
    add_vlan_req (codes "a")
    ∷ add_to_vlan_req 2 port (codes "a")
    ∷ start_session_req (codes "a")
    ∷ add_vlan_req (codes "b")
    ∷ delete_from_vlan_req 2 port (codes "a")
    ∷ delete_vlan_req works 2 (codes "a")
    ∷ end_session_req works (codes "b")
    ∷ initialize_req false
    ∷ []

-- With the daemon initialized again while session b has a VLAN.
abbrev restarted : List NmdRequest
restarted =
    add_vlan_req (codes "a")
    ∷ add_vlan_req (codes "b")
    ∷ add_to_vlan_req 3 port (codes "b")
    ∷ delete_vlan_req works 5 (codes "a")
    ∷ initialize_req true
    ∷ add_vlan_req (codes "b")
    ∷ delete_vlan_req works 4 (codes "b")
    ∷ []

run-IsAccounted_example :
    (st : VlanSet) × (run morning (new_vlan_set 3) ≡ some st) × IsAccounted 3 st
unfolding all_name_vlans all_keep_vlans
run-IsAccounted_example = run-IsAccounted 3 morning refl refl

run-OwnsVlans_example : (st : VlanSet) × (run restarted (new_vlan_set 3) ≡ some st) × OwnsVlans 3 st
unfolding all_name_vlans
run-OwnsVlans_example = run-OwnsVlans 3 restarted refl

add_vlan-front_example :
    let st = new_vlan_set 3 in
    let (st', found, ok) = add_vlan (codes "a") st in
    ((st.vlans 2).in_use ≡ false)
    × (found ≡ 2)
    × (ok ≡ true)
    × ((st'.vlans 2).in_use ≡ true)
    × ((st'.vlans 2).session_id ≡ codes "a")
    × (mem 2 st'.free_vlans ≡ false)
    × ((j : ℕ) → nat_eq 2 j ≡ false → st'.vlans j ≡ st.vlans j)
unfolding new_vlan_set ids_from
add_vlan-front_example =
    add_vlan-front 3 (codes "a") 2 (3 ∷ 4 ∷ []) (new_vlan_set 3) (new_vlan_set-IsAccounted 3) refl
      refl (omega arith)

-- One VLAN of two is in use, with a port.
abbrev lab : Session
lab = record {
  session_id = codes "a";
  switches = codes "sw1" ∷ [];
  active_vlans = 2 ∷ [];
  removed_vlans = [];
  cleared = false;
}

abbrev busy : VlanSet
busy = record {
  num_vlans = 2;
  vlans = λ id.
      if nat_eq id 2
      then record { in_use = true; ports = port ∷ []; session_id = codes "a" }
      else unused_vlan;
  free_vlans = 3 ∷ [];
  sessions = lab ∷ [];
}

busy-IsAccounted : IsAccounted 2 busy
unfolding mem
busy-IsAccounted = record {
  size = refl;
  accounted = λ id k. ground arith;
  empty = λ id h. ground arith;
  once = (refl, tt);
}

initialize_vlans_loses_example :
    (((initialize_vlans busy).vlans 2).in_use ≡ false)
    × (mem 2 (initialize_vlans busy).free_vlans ≡ false)
initialize_vlans_loses_example = initialize_vlans_loses 2 busy 2 busy-IsAccounted refl refl

busy_covered :
    (id : ℕ)
    → (mem id [] || mem id (2 ∷ [])) ≡ true
    → All (λ p. mem_name (switch_of p) (codes "sw1" ∷ []) ≡ true) (busy.vlans id).ports
unfolding mem_name same_bytes get_string
busy_covered id m = elim (Bool-cases (nat_eq id 2)) [ inl e ↦ rw e (refl, tt) | inr e ↦ rw e tt ]

clear_session-vlans_example :
    let (st', _) = clear_session works (codes "a") busy in
    ((id : ℕ)
      → (mem id [] || mem id (2 ∷ [])) ≡ true
      → known st' id ≡ true
      → ((st'.vlans id).in_use ≡ false) × (mem id st'.free_vlans ≡ true))
    × ((id : ℕ) → (mem id [] || mem id (2 ∷ [])) ≡ false → st'.vlans id ≡ busy.vlans id)
unfolding get_session mem mem_name same_bytes
clear_session-vlans_example =
    clear_session-vlans 2 works (codes "a") lab busy busy-IsAccounted refl refl busy_covered

clear_empty-add_vlan_example :
    let (st', found, ok) = add_vlan (codes "b") (new_vlan_set 3) in
    (ok ≡ true)
    × (found ≡ 2)
    × ((st'.vlans 2).session_id ≡ codes "b")
    × (((clear_empty (2 ∷ []) st').vlans 2).in_use ≡ false)
    × (mem 2 (clear_empty (2 ∷ []) st').free_vlans ≡ true)
unfolding new_vlan_set ids_from mem
clear_empty-add_vlan_example =
    clear_empty-add_vlan 3 (codes "b") 2 (3 ∷ 4 ∷ []) (2 ∷ []) (new_vlan_set 3)
      (new_vlan_set-IsAccounted 3) refl refl (omega arith) refl
