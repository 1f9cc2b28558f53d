-- ===== src/Nmd/Vlans/Owners.antt =====
-- The operations of the set of VLANs keep the ids that the sessions hold among the VLANs.
use onldaemons.Prelude.{
  ℕ, ◌+◌, ◌≡◌, refl, Bool, true, false, ◌&&◌, Option, none, some, Option-cases, List, [], ◌∷◌, ◌++◌,
  ltb, leb, if◌then◌else◌, All, Bool-cases, inl, inr, sym, subst, ◌∙◌,
}
use onldaemons.Shared.NccpString.{same_bytes}
use onldaemons.Shared.SwitchTypes.{SwitchPort}
use onldaemons.Nmd.Vlans.{
  Session, Vlan, VlanSet, known, mem_name, switch_of, get_session, find_session, put_session,
  drop_session, session_add_vlan, join_session, claim_vlan, give_vlan, take_free, alloc_vlan,
  add_vlan, new_vlan_set,
}
use onldaemons.Nmd.Vlans.Ports.{add_switch, add_port}
use onldaemons.Nmd.Vlans.Clear.{
  clear_object, clear_session, settle, clear_found, remove_or_clear, no_ids, session_remove_vlan,
  delete_found, delete_vlan, initialize_vlans,
}
use onldaemons.Nmd.Vlans.Keeps.{Keeps, clear_object-Keeps}
use onldaemons.Nmd.Vlans.Lookups.{
  all_found, Owns, OwnsVlans, session_add_vlan-Owns, session_remove_vlan-Owns, clear_object-Owns,
}

module _ (P : Session → Type 0) where
  find_session-All :
      (sid : List ℕ) (ss : List Session) (s : Session)
      → find_session sid ss ≡ some s
      → All P ss
      → P s
  unfolding find_session
  find_session-All sid [] s e a = absurd (cc e)
  find_session-All sid (x ∷ ss) s e a = elim (Bool-cases (same_bytes x.session_id sid)) [
    | inl b ↦ subst P (cc (e, b)) a.0
    | inr b ↦ find_session-All sid ss s (cc (e, b)) a.1
  ]

  put_session-All :
      (sid : List ℕ) (new : Session) (ss : List Session)
      → P new
      → All P ss
      → All P (put_session sid new ss)
  unfolding put_session
  put_session-All sid new [] p a = tt
  put_session-All sid new (x ∷ ss) p a = elim (Bool-cases (same_bytes x.session_id sid)) [
    | inl b ↦ rw b (p, a.1)
    | inr b ↦ rw b (a.0, put_session-All sid new ss p a.1)
  ]

  drop_session-All : (sid : List ℕ) (ss : List Session) → All P ss → All P (drop_session sid ss)
  unfolding drop_session
  drop_session-All sid [] a = tt
  drop_session-All sid (x ∷ ss) a = elim (Bool-cases (same_bytes x.session_id sid)) [
    | inl b ↦ rw b a.1
    | inr b ↦ rw b (a.0, drop_session-All sid ss a.1)
  ]

  append-All : (ss : List Session) (s : Session) → All P ss → P s → All P (ss ++ (s ∷ []))
  append-All [] s a p = (p, tt)
  append-All (x ∷ ss) s a p = (a.0, append-All ss s a.1 p)

-- The session that is found has ids of VLANs.
pub get_session-Owns :
    {n : ℕ} (sid : List ℕ) (st : VlanSet) (s : Session)
    → get_session sid st ≡ some s
    → OwnsVlans n st
    → Owns n s
unfolding get_session
get_session-Owns {n = n} sid st s e w = find_session-All (Owns n) sid st.sessions s e w.owned

-- The object of a session is changed, and then written back or dropped.
settle-OwnsVlans :
    {n : ℕ} (sid : List ℕ) (r : Session × VlanSet × Bool)
    → Owns n r.0
    → OwnsVlans n r.1
    → OwnsVlans n (settle sid r).0
unfolding settle
settle-OwnsVlans {n = n} sid (s, st, rtn) o w = record {
  size = w.size;
  owned =
      elim s.cleared
        as (λ c.
          All (Owns n)
            (if c then drop_session sid st.sessions else put_session sid s st.sessions)) [
              | true ↦ drop_session-All (Owns n) sid st.sessions w.owned
              | false ↦ put_session-All (Owns n) sid s st.sessions o w.owned
            ];
}

with_Keeps : {n : ℕ} (st st' : VlanSet) → Keeps st st' → OwnsVlans n st → OwnsVlans n st'
with_Keeps {n = n} st st' k w = record {
  size = k.1 ∙ w.size;
  owned = subst (All (Owns n)) (sym k.0) w.owned;
}

clear_object-OwnsVlans :
    {n : ℕ} (send : List ℕ → Bool) (s : Session) (st : VlanSet)
    → OwnsVlans n st
    → OwnsVlans n (clear_object send s st).1
clear_object-OwnsVlans send s st w = with_Keeps st _ (clear_object-Keeps send s st) w

pub clear_session-OwnsVlans :
    {n : ℕ} (send : List ℕ → Bool) (sid : List ℕ) (st : VlanSet)
    → OwnsVlans n st
    → OwnsVlans n (clear_session send sid st).0
unfolding clear_session clear_found
clear_session-OwnsVlans {n = n} send sid st w = elim (Option-cases (get_session sid st)) [
  | inl e ↦ rw e w
  | inr (s, e) ↦ rw e (
      settle-OwnsVlans sid (clear_object send s st)
        (clear_object-Owns n send s st (get_session-Owns sid st s e w))
        (clear_object-OwnsVlans send s st w))
]

pub delete_vlan-OwnsVlans :
    {n : ℕ} (send : List ℕ → Bool) (id : ℕ) (sid : List ℕ) (st : VlanSet)
    → OwnsVlans n st
    → OwnsVlans n (delete_vlan send id sid st).0
unfolding delete_vlan delete_found remove_or_clear
delete_vlan-OwnsVlans {n = n} send id sid st w = elim (Option-cases (get_session sid st)) [
  | inl e ↦ rw e w
  | inr (s, e) ↦
      let s' = session_remove_vlan id s in
      let o = session_remove_vlan-Owns n id s (get_session-Owns sid st s e w) in
      elim (Bool-cases (no_ids s'.active_vlans)) [
        | inl f ↦
            rw (e, f)
              (settle-OwnsVlans sid (clear_object send s' st) (clear_object-Owns n send s' st o)
                (clear_object-OwnsVlans send s' st w))
        | inr f ↦ rw (e, f) (settle-OwnsVlans sid (s', st, true) o w)
      ]
]

-- The new session, or the one found, takes an id that is of a VLAN.
join_session-All :
    (n : ℕ) (sid : List ℕ) (id : ℕ) (s : Option Session) (ss : List Session)
    → (leb 2 id && ltb id (n + 2)) ≡ true
    → ((old : Session) → s ≡ some old → Owns n old)
    → All (Owns n) ss
    → All (Owns n) (join_session sid id s ss)
unfolding join_session all_found
join_session-All n sid id none ss k o a =
    let new : Session = record {
      session_id = sid;
      switches = [];
      active_vlans = [];
      removed_vlans = [];
      cleared = false;
    } in
    append-All (Owns n) ss (session_add_vlan id new) a
      (session_add_vlan-Owns n id new k (refl, refl))
join_session-All n sid id (some s) ss k o a =
    put_session-All (Owns n) sid _ ss (session_add_vlan-Owns n id s k (o s refl)) a

give_vlan-OwnsVlans :
    {n : ℕ} (sid : List ℕ) (id : ℕ) (v : Option Vlan) (st : VlanSet)
    → (leb 2 id && ltb id (n + 2)) ≡ true
    → OwnsVlans n st
    → OwnsVlans n (give_vlan sid id v st).0
unfolding give_vlan
give_vlan-OwnsVlans sid id none st k w = w
give_vlan-OwnsVlans {n = n} sid id (some v) st k w = record {
  size = w.size;
  owned =
      join_session-All n sid id (get_session sid st) st.sessions k
        (λ s e. get_session-Owns sid st s e w) w.owned;
}

-- alloc_vlan tests the id that it takes from the free list.
take_free-OwnsVlans :
    {n : ℕ} (sid : List ℕ) (ids : List ℕ) (st : VlanSet)
    → OwnsVlans n st
    → OwnsVlans n (take_free sid ids st).0
unfolding take_free
take_free-OwnsVlans sid [] st w = w
take_free-OwnsVlans {n = n} sid (id ∷ ids) st w =
    let w' : OwnsVlans n (record st { free_vlans = ids }) = record {
      size = w.size;
      owned = w.owned;
    } in
    elim (Bool-cases (known st id)) [
      | inl e ↦ rw e (
          give_vlan-OwnsVlans sid id (claim_vlan sid (st.vlans id)) _
            (let size = w.size in rw⁻¹ size e) w')
      | inr e ↦ rw e w'
    ]

pub add_vlan-OwnsVlans :
    {n : ℕ} (sid : List ℕ) (st : VlanSet) → OwnsVlans n st → OwnsVlans n (add_vlan sid st).0
unfolding add_vlan alloc_vlan
add_vlan-OwnsVlans sid st w = take_free-OwnsVlans sid st.free_vlans st w

add_switch-Owns : (n : ℕ) (swid : List ℕ) (s : Session) → Owns n s → Owns n (add_switch swid s)
unfolding add_switch
add_switch-Owns n swid s o = elim (Bool-cases s.cleared) [
  | inl e ↦ rw e o
  | inr e ↦ elim (Bool-cases (mem_name swid s.switches)) [
    | inl f ↦ rw (e, f) o
    | inr f ↦ rw (e, f) o
  ]
]

pub add_port-OwnsVlans :
    {n : ℕ} (sid : List ℕ) (id : ℕ) (port : SwitchPort) (s : Session) (st : VlanSet)
    → get_session sid st ≡ some s
    → OwnsVlans n st
    → OwnsVlans n (add_port sid id port s st)
unfolding add_port
add_port-OwnsVlans {n = n} sid id port s st e w = record {
  size = w.size;
  owned =
      put_session-All (Owns n) sid (add_switch (switch_of port) s) st.sessions
        (add_switch-Owns n (switch_of port) s (get_session-Owns sid st s e w)) w.owned;
}

pub new_vlan_set-OwnsVlans : (n : ℕ) → OwnsVlans n (new_vlan_set n)
unfolding new_vlan_set
new_vlan_set-OwnsVlans n = record { size = refl; owned = tt }

pub initialize_vlans-OwnsVlans :
    {n : ℕ} (st : VlanSet) → OwnsVlans n st → OwnsVlans n (initialize_vlans st)
unfolding initialize_vlans
initialize_vlans-OwnsVlans st w = record { size = w.size; owned = tt }
