-- ===== src/Nmd/Vlans/Handlers.antt =====
-- The requests to the daemon, one after the other, and the account of the VLANs over all of them.
use onldaemons.Prelude.{
  ℕ, ◌+◌, ◌≡◌, refl, Bool, true, false, not, ◌&&◌, Option, none, some, Option-cases, List, [], ◌∷◌,
  ltb, leb, if◌then◌else◌, arith, Bool-cases, inl, inr,
}
use onldaemons.Shared.NccpString.{same_bytes}
use onldaemons.Shared.SwitchTypes.{SwitchPort}
use onldaemons.Nmd.Vlans.{Session, VlanSet, known, new_vlan_set, get_session, add_vlan}
use onldaemons.Nmd.Vlans.Ports.{add_to_vlan, join_port, add_port}
use onldaemons.Nmd.Vlans.Clear.{clear_session, delete_vlan, initialize_vlans}
use onldaemons.Nmd.Vlans.Accounts.{
  IsAccounted, with_sessions, with_ports, clear_session-IsAccounted, delete_vlan-IsAccounted,
}
use onldaemons.Nmd.Vlans.Alloc.{new_vlan_set-IsAccounted, add_vlan-IsAccounted}
use onldaemons.Nmd.Vlans.Lookups.{
  clear_finds, create_finds, remove_finds, all_clear_find, if_found, Owns, OwnsVlans,
  clear_finds-Owns, create_finds-Owns, remove_finds-Owns, all_clear_find-Owns,
}
use onldaemons.Nmd.Vlans.Owners.{
  get_session-Owns, add_vlan-OwnsVlans, add_port-OwnsVlans, delete_vlan-OwnsVlans,
  clear_session-OwnsVlans, initialize_vlans-OwnsVlans, new_vlan_set-OwnsVlans,
}

-- The requests that the daemon registers. The requests that send commands have whether a command to a
-- switch succeeds, initialize_req whether all the switches were initialized.
pub data NmdRequest : Type 0 where
  add_vlan_req : List ℕ → NmdRequest
  add_to_vlan_req : ℕ → SwitchPort → List ℕ → NmdRequest
  delete_vlan_req : (List ℕ → Bool) → ℕ → List ℕ → NmdRequest
  end_session_req : (List ℕ → Bool) → List ℕ → NmdRequest
  initialize_req : Bool → NmdRequest
  delete_from_vlan_req : ℕ → SwitchPort → List ℕ → NmdRequest
  start_session_req : List ℕ → NmdRequest

first : Option (VlanSet × Bool) → Option VlanSet
first none = none
first (some (st, ok)) = some st

when_found : Bool → VlanSet → Option VlanSet
when_found found st = if found then some st else none

-- handle(), without the answers. delete_from_vlan_req only answers, and start_session_req only sends
-- commands. There is no result where a request uses the VLAN of an id for which get_vlan is NULL.
pub handle : NmdRequest → VlanSet → Option VlanSet
unfolding first when_found
handle (add_vlan_req sid) st = some (add_vlan sid st).0
handle (add_to_vlan_req id port sid) st = first (add_to_vlan id port sid st)
handle (delete_vlan_req send id sid) st =
    when_found (if_found (remove_finds st.num_vlans id) (get_session sid st))
      (delete_vlan send id sid st).0
handle (end_session_req send sid) st =
    when_found (if_found (clear_finds st.num_vlans) (get_session sid st))
      (clear_session send sid st).0
handle (initialize_req ok) st =
    if ok
    then when_found (all_clear_find st.num_vlans st.sessions) (initialize_vlans st)
    else some st
handle (delete_from_vlan_req id port sid) st = some st
handle (start_session_req sid) st =
    when_found (if_found (create_finds st.num_vlans) (get_session sid st)) st

-- The id that comes in the request is one of the daemon's VLANs, where the code uses its VLAN.
unfoldable pub names_vlan : ℕ → NmdRequest → Bool
names_vlan n (add_vlan_req sid) = true
names_vlan n (add_to_vlan_req id port sid) = leb 2 id && ltb id (n + 2)
names_vlan n (delete_vlan_req send id sid) = true
names_vlan n (end_session_req send sid) = true
names_vlan n (initialize_req ok) = true
names_vlan n (delete_from_vlan_req id port sid) = true
names_vlan n (start_session_req sid) = true

-- The request does not come to initialize_vlans.
unfoldable pub keeps_vlans : NmdRequest → Bool
keeps_vlans (add_vlan_req sid) = true
keeps_vlans (add_to_vlan_req id port sid) = true
keeps_vlans (delete_vlan_req send id sid) = true
keeps_vlans (end_session_req send sid) = true
keeps_vlans (initialize_req ok) = not ok
keeps_vlans (delete_from_vlan_req id port sid) = true
keeps_vlans (start_session_req sid) = true

-- The step has a result, whose sessions hold ids of VLANs; given A, the account holds in it.
abbrev Steps : ℕ → Type 0 → Option VlanSet → Type 0
Steps n A r = (st : VlanSet) × (r ≡ some st) × OwnsVlans n st × (A → IsAccounted n st)

add_port-IsAccounted :
    (n : ℕ) (sid : List ℕ) (id : ℕ) (port : SwitchPort) (s : Session) (st : VlanSet)
    → (st.vlans id).in_use ≡ true
    → IsAccounted n st
    → IsAccounted n (add_port sid id port s st)
unfolding add_port
add_port-IsAccounted n sid id port s st used w = with_sessions _ _ (with_ports id st _ used w)

join_port-Steps :
    (n : ℕ) (A : Type 0) (id : ℕ) (port : SwitchPort) (sid : List ℕ) (s : Option Session)
    (st : VlanSet)
    → get_session sid st ≡ s
    → OwnsVlans n st
    → (A → IsAccounted n st)
    → known st id ≡ true
    → Steps n A (first (join_port sid id port s st))
unfolding join_port first
join_port-Steps n A id port sid none st e o w k = (st, refl, o, w)
join_port-Steps n A id port sid (some s) st e o w k = elim (Bool-cases (st.vlans id).in_use) [
  | inl u ↦ elim (Bool-cases (same_bytes (st.vlans id).session_id sid)) [
    | inl b ↦ (
      add_port sid id port s st,
      rw (k, u, b) refl,
      add_port-OwnsVlans sid id port s st e o,
      λ a. add_port-IsAccounted n sid id port s st u (w a),
    )
    | inr b ↦ (st, rw (k, u, b) refl, o, w)
  ]
  | inr u ↦ (st, rw (k, u) refl, o, w)
]

-- What a session's request looks up is found.
session_finds :
    (n : ℕ) (f : Session → Bool) (sid : List ℕ) (st : VlanSet)
    → ((s : Session) → Owns n s → f s ≡ true)
    → OwnsVlans n st
    → if_found f (get_session sid st) ≡ true
session_finds n f sid st h o = elim (Option-cases (get_session sid st)) [
  | inl e ↦ rw e refl
  | inr (s, e) ↦ rw e (h s (get_session-Owns sid st s e o))
]

when_found-Steps :
    (n : ℕ) (A : Type 0) (found : Bool) (st : VlanSet)
    → found ≡ true
    → OwnsVlans n st
    → (A → IsAccounted n st)
    → Steps n A (when_found found st)
unfolding when_found
when_found-Steps n A found st e o w = (st, rw e refl, o, w)

handle-Steps :
    (n : ℕ) (A : Type 0) (r : NmdRequest) (st : VlanSet)
    → OwnsVlans n st
    → (A → IsAccounted n st)
    → names_vlan n r ≡ true
    → Steps n (A × (keeps_vlans r ≡ true)) (handle r st)
unfolding handle add_to_vlan names_vlan keeps_vlans
handle-Steps n A (add_vlan_req sid) st o w k =
    (_, refl, add_vlan-OwnsVlans sid st o, λ a. add_vlan-IsAccounted sid st (w a.0))
handle-Steps n A (add_to_vlan_req id port sid) st o w k =
    join_port-Steps n _ id port sid (get_session sid st) st refl o (λ a. w a.0)
      (let e = o.size in rw e k)
handle-Steps n A (delete_vlan_req send id sid) st o w k =
    let e = o.size in
    when_found-Steps n _ _ _
      (session_finds n (remove_finds st.num_vlans id) sid st
        (λ s own. rw e (remove_finds-Owns n id s own)) o)
      (delete_vlan-OwnsVlans send id sid st o) (λ a. delete_vlan-IsAccounted send id sid st (w a.0))
handle-Steps n A (end_session_req send sid) st o w k =
    let e = o.size in
    when_found-Steps n _ _ _
      (session_finds n (clear_finds st.num_vlans) sid st (λ s own. rw e (clear_finds-Owns n s own))
        o)
      (clear_session-OwnsVlans send sid st o) (λ a. clear_session-IsAccounted send sid st (w a.0))
handle-Steps n A (initialize_req false) st o w k = (st, refl, o, λ a. w a.0)
handle-Steps n A (initialize_req true) st o w k =
    let e = o.size in
    when_found-Steps n _ _ _ (rw e (all_clear_find-Owns n st.sessions o.owned))
      (initialize_vlans-OwnsVlans st o) (λ a. absurd (cc a.1))
handle-Steps n A (delete_from_vlan_req id port sid) st o w k = (st, refl, o, λ a. w a.0)
handle-Steps n A (start_session_req sid) st o w k =
    let e = o.size in
    when_found-Steps n _ _ _
      (session_finds n (create_finds st.num_vlans) sid st
        (λ s own. rw e (create_finds-Owns n s own)) o)
      o (λ a. w a.0)

bind : Option VlanSet → (VlanSet → Option VlanSet) → Option VlanSet
bind none f = none
bind (some st) f = f st

pub run : List NmdRequest → VlanSet → Option VlanSet
unfolding bind
run [] st = some st
run (r ∷ rs) st = bind (handle r st) (run rs)

unfoldable pub all_name_vlans : ℕ → List NmdRequest → Bool
unfolding names_vlan
all_name_vlans n [] = true
all_name_vlans n (r ∷ rs) = names_vlan n r && all_name_vlans n rs

unfoldable pub all_keep_vlans : List NmdRequest → Bool
unfolding keeps_vlans
all_keep_vlans [] = true
all_keep_vlans (r ∷ rs) = keeps_vlans r && all_keep_vlans rs

run-Steps :
    (n : ℕ) (A : Type 0) (rs : List NmdRequest) (st : VlanSet)
    → OwnsVlans n st
    → (A → IsAccounted n st)
    → all_name_vlans n rs ≡ true
    → Steps n (A × (all_keep_vlans rs ≡ true)) (run rs st)
unfolding run bind all_name_vlans all_keep_vlans
run-Steps n A [] st o w k = (st, refl, o, λ a. w a.0)
run-Steps n A (r ∷ rs) st o w k =
    let now : (names_vlan n r ≡ true) × (all_name_vlans n rs ≡ true) = ground arith in
    let (st', e, o', w') = handle-Steps n A r st o w now.0 in
    let (st'', e', o'', w'') = run-Steps n _ rs st' o' w' now.1 in
    (
      st'',
      rw e e',
      o'',
      λ a.
          let both : (keeps_vlans r ≡ true) × (all_keep_vlans rs ≡ true) =
            (let all = a.1 in ground arith) in
          w'' ((a.0, both.0), both.1),
    )

-- From the start of the daemon, over any sequence of requests, initialize_req among them, in which the
-- ids to add_to_vlan are of VLANs, no request uses a VLAN that get_vlan did not find: there is a result,
-- and in it the ids in the active and the removed list of every session are of VLANs.
pub run-OwnsVlans :
    (n : ℕ) (rs : List NmdRequest)
    → all_name_vlans n rs ≡ true
    → (st : VlanSet) × (run rs (new_vlan_set n) ≡ some st) × OwnsVlans n st
run-OwnsVlans n rs k =
    let (st, e, o, w) =
      run-Steps n _ rs (new_vlan_set n) (new_vlan_set-OwnsVlans n)
        (λ (a : Unit {0}). new_vlan_set-IsAccounted n) k in
    (st, e, o)

-- From the start of the daemon, over any sequence of requests whose ids to add_to_vlan are of VLANs and
-- of which none comes to initialize_vlans (an initialize_req does when all the switches were
-- initialized), there is a result, and in it the free list has exactly the VLANs that are not in use,
-- each once, and a VLAN that is not in use has no ports.
pub run-IsAccounted :
    (n : ℕ) (rs : List NmdRequest)
    → all_name_vlans n rs ≡ true
    → all_keep_vlans rs ≡ true
    → (st : VlanSet) × (run rs (new_vlan_set n) ≡ some st) × IsAccounted n st
run-IsAccounted n rs k q =
    let (st, e, o, w) =
      run-Steps n (Unit {0}) rs (new_vlan_set n) (new_vlan_set-OwnsVlans n)
        (λ a. new_vlan_set-IsAccounted n) k in
    (st, e, w (tt, q))
