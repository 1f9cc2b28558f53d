-- ===== src/Nmd/Vlans.antt =====
-- nmd/nmd_types.h and nmd/nmd_types.cc: the set of VLANs, which are given to sessions and taken back.
-- A handler of a request runs as one step. The commands that go to the switches are not modelled, only
-- whether they succeed, by the switch.
pub mod Ports
pub mod Clear
pub mod Accounts
pub mod Steps
pub mod Frees
pub mod Alloc
pub mod Race
pub mod Lookups
pub mod Keeps
pub mod Owners
pub mod Handlers
pub mod Examples
use onldaemons.Prelude.{
  ℕ, zero, suc, ◌+◌, ◌-◌, ◌^◌, ◌<◌, Bool, true, false, not, ◌&&◌, ◌||◌, Option, none, some, List,
  [], ◌∷◌, ◌++◌, ltb, leb, ◌==◌ as nat_eq, if◌then◌else◌,
}
use onldaemons.Shared.NccpString.{NccpString, get_string, same_bytes}
use onldaemons.Shared.SwitchTypes.{SwitchPort, ◌==◌ as same_port}

pub record Vlan : Type 0 where
  pub in_use : Bool
  pub ports : List SwitchPort
  pub session_id : List ℕ

pub record Session : Type 0 where
  pub session_id : List ℕ
  pub switches : List (List ℕ)
  pub active_vlans : List ℕ
  pub removed_vlans : List ℕ
  pub cleared : Bool

-- The array of VLANs is a function of the VLAN's id; a session object is the entry of the list.
pub record VlanSet : Type 0 where
  pub num_vlans : ℕ
  pub vlans : ℕ → Vlan
  pub free_vlans : List ℕ
  pub sessions : List Session

-- find(first, last, x) != last, on ids and on names
unfoldable pub mem : ℕ → List ℕ → Bool
mem x [] = false
mem x (y ∷ ys) = let rest = mem x ys in if nat_eq x y then true else rest

unfoldable pub mem_name : List ℕ → List (List ℕ) → Bool
mem_name x [] = false
mem_name x (y ∷ ys) = let rest = mem_name x ys in if same_bytes x y then true else rest

-- getSwitchId()
abbrev pub switch_of : SwitchPort → List ℕ
switch_of p = get_string p.switchid

abbrev pub unused_vlan : Vlan
unused_vlan = record { in_use = false; ports = []; session_id = [] }

unfoldable pub ids_from : ℕ → ℕ → List ℕ
ids_from i zero = []
ids_from i (suc n) = i ∷ ids_from (i + 1) n

-- vlan_set(num_vlans): the ids start at 2.
unfoldable pub new_vlan_set : ℕ → VlanSet
unfolding ids_from
new_vlan_set n = record {
  num_vlans = n;
  vlans = λ i. unused_vlan;
  free_vlans = ids_from 2 n;
  sessions = [];
}

-- get_vlan(vlan_id) != NULL
abbrev pub known : VlanSet → ℕ → Bool
known st id = leb 2 id && ltb id (st.num_vlans + 2)

abbrev pub set_vlan : ℕ → Vlan → VlanSet → VlanSet
set_vlan id v st = record st { vlans = λ i. if nat_eq id i then v else st.vlans i }

unfoldable pub free_vlan : ℕ → VlanSet → VlanSet
unfolding mem
free_vlan id st =
    if mem id st.free_vlans then st else record st { free_vlans = st.free_vlans ++ (id ∷ []) }

-- vlan::set_in_use(true, sid)
unfoldable pub claim_vlan : List ℕ → Vlan → Option Vlan
claim_vlan sid v = if v.in_use then none else some (record v { in_use = true; session_id = sid })

pub find_session : List ℕ → List Session → Option Session
find_session sid [] = none
find_session sid (s ∷ ss) =
    let rest = find_session sid ss in if same_bytes s.session_id sid then some s else rest

unfoldable pub get_session : List ℕ → VlanSet → Option Session
unfolding find_session
get_session sid st = find_session sid st.sessions

-- The object that get_session returns becomes `new`.
pub put_session : List ℕ → Session → List Session → List Session
put_session sid new [] = []
put_session sid new (s ∷ ss) =
    let rest = put_session sid new ss in if same_bytes s.session_id sid then new ∷ ss else s ∷ rest

-- remove_session, of the object that get_session returns
pub drop_session : List ℕ → List Session → List Session
drop_session sid [] = []
drop_session sid (s ∷ ss) =
    let rest = drop_session sid ss in if same_bytes s.session_id sid then ss else s ∷ rest

pub session_add_vlan : ℕ → Session → Session
unfolding mem
session_add_vlan id s =
    if mem id s.active_vlans then s else record s { active_vlans = s.active_vlans ++ (id ∷ []) }

pub join_session : List ℕ → ℕ → Option Session → List Session → List Session
unfolding session_add_vlan put_session
join_session sid id none ss =
    ss
    ++ (session_add_vlan id (record {
      session_id = sid;
      switches = [];
      active_vlans = [];
      removed_vlans = [];
      cleared = false;
    })
        ∷ [])
join_session sid id (some s) ss = put_session sid (session_add_vlan id s) ss

-- NO_FREE_VLANS
abbrev pub no_free_vlans : ℕ
no_free_vlans = 2 ^ 32 - 1

unfoldable pub give_vlan : List ℕ → ℕ → Option Vlan → VlanSet → VlanSet × ℕ
unfolding join_session get_session
give_vlan sid id none st = (st, no_free_vlans)
give_vlan sid id (some v) st = (
  record (set_vlan id v st) { sessions = join_session sid id (get_session sid st) st.sessions },
  id,
)

unfoldable pub take_free : List ℕ → List ℕ → VlanSet → VlanSet × ℕ
unfolding give_vlan claim_vlan
take_free sid [] st = (st, no_free_vlans)
take_free sid (id ∷ ids) st =
    let st' = record st { free_vlans = ids } in
    if known st id
    then give_vlan sid id (claim_vlan sid (st.vlans id)) st'
    else (st', no_free_vlans)

unfoldable pub alloc_vlan : List ℕ → VlanSet → VlanSet × ℕ
unfolding take_free
alloc_vlan sid st = take_free sid st.free_vlans st

-- add_vlan(vlan_id, sid): the id, and whether there was a free VLAN.
unfoldable pub add_vlan : List ℕ → VlanSet → VlanSet × ℕ × Bool
unfolding alloc_vlan
add_vlan sid st = let (st', id) = alloc_vlan sid st in (st', id, not (nat_eq id no_free_vlans))
