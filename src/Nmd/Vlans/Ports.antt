-- ===== src/Nmd/Vlans/Ports.antt =====
-- nmd/nmd_types.cc: the ports of a VLAN.
use onldaemons.Prelude.{
  ℕ, Bool, true, false, not, Option, none, some, List, [], ◌∷◌, ◌++◌, if◌then◌else◌,
}
use onldaemons.Shared.NccpString.{same_bytes}
use onldaemons.Shared.SwitchTypes.{SwitchPort, ◌==◌ as same_port}
use onldaemons.Nmd.Vlans.{
  Session, VlanSet, mem_name, switch_of, known, set_vlan, get_session, put_session,
}

-- session::add_switch
unfoldable pub add_switch : List ℕ → Session → Session
unfolding mem_name
add_switch swid s =
    if s.cleared
    then s
    else if mem_name swid s.switches
    then s
    else record s { switches = s.switches ++ (swid ∷ []) }

unfoldable pub add_port : List ℕ → ℕ → SwitchPort → Session → VlanSet → VlanSet
unfolding add_switch put_session
add_port sid id port s st =
    let v = st.vlans id in
    record (set_vlan id (record v { ports = v.ports ++ (port ∷ []) }) st) {
      sessions = put_session sid (add_switch (switch_of port) s) st.sessions;
    }

unfoldable pub join_port :
    List ℕ → ℕ → SwitchPort → Option Session → VlanSet → Option (VlanSet × Bool)
unfolding add_port
join_port sid id port none st = some (st, false)
join_port sid id port (some s) st =
    if not (known st id)
    then none
    else if not (st.vlans id).in_use
    then some (st, false)
    else if same_bytes (st.vlans id).session_id sid
    then some (add_port sid id port s st, true)
    else some (st, false)

-- add_to_vlan. There is no result where the id is of no VLAN: the code then follows a null pointer.
unfoldable pub add_to_vlan : ℕ → SwitchPort → List ℕ → VlanSet → Option (VlanSet × Bool)
unfolding join_port get_session
add_to_vlan id port sid st = join_port sid id port (get_session sid st) st

-- std::list::remove
unfoldable pub remove_port : SwitchPort → List SwitchPort → List SwitchPort
remove_port p [] = []
remove_port p (q ∷ qs) = let rest = remove_port p qs in if same_port q p then rest else q ∷ rest

pub delete_from_vlan : ℕ → SwitchPort → List ℕ → VlanSet → Option (VlanSet × Bool)
unfolding remove_port
delete_from_vlan id port sid st =
    let v = st.vlans id in
    if not (known st id)
    then none
    else if not v.in_use
    then some (st, false)
    else if same_bytes v.session_id sid
    then some (set_vlan id (record v { ports = remove_port port v.ports }) st, true)
    else some (st, false)
