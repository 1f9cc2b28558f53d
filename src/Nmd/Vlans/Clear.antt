-- ===== src/Nmd/Vlans/Clear.antt =====
-- nmd/nmd_types.cc: taking the VLANs of a session back.
use onldaemons.Prelude.{
  ℕ, ◌+◌, Bool, true, false, ◌&&◌, ◌||◌, Option, none, some, List, [], ◌∷◌, ◌++◌, length,
  ◌==◌ as nat_eq, if◌then◌else◌,
}
use onldaemons.Shared.NccpString.{same_bytes}
use onldaemons.Shared.SwitchTypes.{SwitchPort}
use onldaemons.Nmd.Vlans.{
  Session, VlanSet, mem, switch_of, unused_vlan, free_vlan, set_vlan, get_session, put_session,
  drop_session, known,
}
use onldaemons.Nmd.Vlans.Ports.{remove_port}

-- get_switch_ports(switch_id)
unfoldable pub ports_on : List ℕ → List SwitchPort → List SwitchPort
ports_on sw [] = []
ports_on sw (p ∷ ps) =
    let rest = ports_on sw ps in if same_bytes (switch_of p) sw then p ∷ rest else rest

-- for each of `gone`: ports.remove(..)
unfoldable pub remove_ports : List SwitchPort → List SwitchPort → List SwitchPort
unfolding remove_port
remove_ports [] ps = ps
remove_ports (g ∷ gone) ps = remove_ports gone (remove_port g ps)

-- ports.empty()
abbrev pub no_ports : List SwitchPort → Bool
no_ports [] = true
no_ports (p ∷ ps) = false

-- inUse = false; sessionID = ""; vlans->free_vlan(vlanId)
unfoldable pub give_back : ℕ → VlanSet → VlanSet
unfolding free_vlan
give_back id st = free_vlan id (set_vlan id unused_vlan st)

-- vlan::get_clear_vlan_cmd(switch_id, cmd), of the VLAN that get_vlan(id) found; the result counts the
-- ports that go.
unfoldable pub clear_vlan_on : List ℕ → ℕ → VlanSet → VlanSet × ℕ
unfolding ports_on remove_ports give_back
clear_vlan_on sw id st =
    let v = st.vlans id in
    let removals = ports_on sw v.ports in
    let ports = remove_ports removals v.ports in
    if no_ports removals
    then (st, 0)
    else if no_ports ports
    then (give_back id st, length removals)
    else (set_vlan id (record v { ports = ports }) st, length removals)

-- vlan::clear_if_empty(), of the VLAN that get_vlan(id) found
unfoldable pub clear_if_empty : ℕ → VlanSet → VlanSet
unfolding give_back
clear_if_empty id st =
    if (st.vlans id).in_use && no_ports (st.vlans id).ports then give_back id st else st

-- The inner loop of clear_session, over the VLANs.
unfoldable pub clear_on : List ℕ → List ℕ → VlanSet → VlanSet × ℕ
unfolding clear_vlan_on
clear_on sw [] st = (st, 0)
clear_on sw (id ∷ ids) st =
    let (st', n) = clear_vlan_on sw id st in let (st'', m) = clear_on sw ids st' in (st'', n + m)

-- The outer loop, over the switches; a command that takes ports away is sent, and the result is
-- whether all these succeed.
unfoldable pub clear_all : (List ℕ → Bool) → List (List ℕ) → List ℕ → VlanSet → VlanSet × Bool
unfolding clear_on
clear_all send [] ids st = (st, true)
clear_all send (sw ∷ sws) ids st =
    let (st', num_rm) = clear_on sw ids st in
    let (st'', rtn) = clear_all send sws ids st' in (st'', (nat_eq num_rm 0 || send sw) && rtn)

unfoldable pub clear_empty : List ℕ → VlanSet → VlanSet
unfolding clear_if_empty
clear_empty [] st = st
clear_empty (id ∷ ids) st = clear_empty ids (clear_if_empty id st)

-- removed_vlans, and the active VLANs that it lacks
unfoldable pub to_clear : List ℕ → List ℕ → List ℕ
unfolding mem
to_clear removed [] = removed
to_clear removed (id ∷ active) =
    if mem id removed then to_clear removed active else to_clear (removed ++ (id ∷ [])) active

-- session::clear_session(): the session object after it, and the set. The code uses the result of
-- get_vlan for each id without a test for NULL: Lookups has the ids that it looks up, and a request
-- (Handlers) has no result where one of them is of no VLAN.
unfoldable pub clear_object : (List ℕ → Bool) → Session → VlanSet → Session × VlanSet × Bool
unfolding to_clear clear_all clear_empty
clear_object send s st =
    let ids = to_clear s.removed_vlans s.active_vlans in
    let (st', rtn) = clear_all send s.switches ids st in
    if s.cleared
    then (s, st, true)
    else (record s { cleared = true; removed_vlans = ids }, clear_empty ids st', rtn)

-- The object is written back; a cleared one leaves the list.
unfoldable pub settle : List ℕ → Session × VlanSet × Bool → VlanSet × Bool
unfolding put_session drop_session
settle sid (s, st, rtn) = (
  record st {
    sessions = if s.cleared then drop_session sid st.sessions else put_session sid s st.sessions;
  },
  rtn,
)

unfoldable pub clear_found : (List ℕ → Bool) → List ℕ → Option Session → VlanSet → VlanSet × Bool
unfolding settle clear_object
clear_found send sid none st = (st, true)
clear_found send sid (some s) st = settle sid (clear_object send s st)

-- vlan_set::clear_session(sid)
unfoldable pub clear_session : (List ℕ → Bool) → List ℕ → VlanSet → VlanSet × Bool
unfolding clear_found get_session
clear_session send sid st = clear_found send sid (get_session sid st) st

unfoldable pub remove_id : ℕ → List ℕ → List ℕ
remove_id id [] = []
remove_id id (x ∷ xs) = let rest = remove_id id xs in if nat_eq x id then rest else x ∷ rest

unfoldable pub session_remove_vlan : ℕ → Session → Session
unfolding mem remove_id
session_remove_vlan id s =
    if mem id s.active_vlans
    then record s {
      active_vlans = remove_id id s.active_vlans;
      removed_vlans = s.removed_vlans ++ (id ∷ []);
    }
    else s

abbrev pub no_ids : List ℕ → Bool
no_ids [] = true
no_ids (x ∷ xs) = false

-- session::remove_vlan: the last active VLAN takes the session along.
unfoldable pub remove_or_clear : (List ℕ → Bool) → Session → VlanSet → Session × VlanSet × Bool
unfolding clear_object
remove_or_clear send s st = if no_ids s.active_vlans then clear_object send s st else (s, st, true)

unfoldable pub delete_found :
    (List ℕ → Bool) → ℕ → List ℕ → Option Session → VlanSet → VlanSet × Bool
unfolding settle remove_or_clear session_remove_vlan
delete_found send id sid none st = (st, true)
delete_found send id sid (some s) st =
    settle sid (remove_or_clear send (session_remove_vlan id s) st)

-- vlan_set::delete_vlan(vlan_id, sid)
unfoldable pub delete_vlan : (List ℕ → Bool) → ℕ → List ℕ → VlanSet → VlanSet × Bool
unfolding delete_found get_session
delete_vlan send id sid st = delete_found send id sid (get_session sid st) st

-- vlan_set::initialize_vlans. The session objects are destroyed as the list is emptied, and then clear
-- VLANs that are no longer in use and have no ports, which does nothing.
unfoldable pub initialize_vlans : VlanSet → VlanSet
initialize_vlans st = record st {
  vlans = λ id.
      if known st id then record (st.vlans id) { in_use = false; ports = [] } else st.vlans id;
  sessions = [];
}
