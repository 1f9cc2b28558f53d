-- ===== src/Nmd/Vlans/Lookups.antt =====
-- nmd/nmd_types.cc: the VLANs that the methods of a session look up by get_vlan, whose result they use
-- without a test for NULL, and the invariant by which they find them.
use onldaemons.Prelude.{
  ℕ, ◌+◌, ◌≡◌, refl, Bool, true, not, ◌&&◌, ◌||◌, Option, none, some, List, [], ◌∷◌, ◌++◌, ltb, leb,
  ◌==◌ as nat_eq, All, arith, Bool-cases, inl, inr,
}
use onldaemons.Nmd.Vlans.{Session, VlanSet, mem, session_add_vlan}
use onldaemons.Nmd.Vlans.Clear.{to_clear, clear_object, no_ids, remove_id, session_remove_vlan}

-- get_vlan(id) != NULL for each of the ids, where there are n VLANs.
unfoldable pub all_found : ℕ → List ℕ → Bool
all_found n [] = true
all_found n (id ∷ ids) = (leb 2 id && ltb id (n + 2)) && all_found n ids

-- clear_session() finds the VLANs that it takes ports from.
unfoldable pub clear_finds : ℕ → Session → Bool
unfolding all_found to_clear
clear_finds n s = s.cleared || all_found n (to_clear s.removed_vlans s.active_vlans)

-- create_vlans() finds the VLANs whose ports it sends.
unfoldable pub create_finds : ℕ → Session → Bool
unfolding all_found
create_finds n s = s.cleared || all_found n s.active_vlans

-- remove_vlan(id), which clears the session with its last active VLAN.
unfoldable pub remove_finds : ℕ → ℕ → Session → Bool
unfolding clear_finds session_remove_vlan
remove_finds n id s =
    let s' = session_remove_vlan id s in not (no_ids s'.active_vlans) || clear_finds n s'

-- Where there is no session, nothing is looked up.
abbrev pub if_found : (Session → Bool) → Option Session → Bool
if_found f none = true
if_found f (some s) = f s

-- The destructors of the sessions.
unfoldable pub all_clear_find : ℕ → List Session → Bool
unfolding clear_finds
all_clear_find n [] = true
all_clear_find n (s ∷ ss) = clear_finds n s && all_clear_find n ss

abbrev pub Owns : ℕ → Session → Type 0
Owns n s = (all_found n s.active_vlans ≡ true) × (all_found n s.removed_vlans ≡ true)

-- The ids that the sessions hold are of VLANs.
pub record OwnsVlans (n : ℕ) (st : VlanSet) : Type 0 where
  pub size : st.num_vlans ≡ n
  pub owned : All (Owns n) st.sessions

module _ (n : ℕ) where
  all_found-append :
      (id : ℕ) (xs : List ℕ)
      → all_found n xs ≡ true
      → (leb 2 id && ltb id (n + 2)) ≡ true
      → all_found n (xs ++ (id ∷ [])) ≡ true
  unfolding all_found
  all_found-append id [] h k = ground arith
  all_found-append id (x ∷ xs) h k = let rest = all_found-append id xs in ground arith

  all_found-mem :
      (id : ℕ) (xs : List ℕ)
      → all_found n xs ≡ true
      → mem id xs ≡ true
      → (leb 2 id && ltb id (n + 2)) ≡ true
  unfolding all_found mem
  all_found-mem id [] h m = absurd (cc m)
  all_found-mem id (x ∷ xs) h m = let rest = all_found-mem id xs in ground arith

  all_found-remove_id :
      (id : ℕ) (xs : List ℕ) → all_found n xs ≡ true → all_found n (remove_id id xs) ≡ true
  unfolding all_found remove_id
  all_found-remove_id id [] h = refl
  all_found-remove_id id (x ∷ xs) h =
      let rest = all_found-remove_id id xs in
      elim (Bool-cases (nat_eq x id)) [
        | inl e ↦ rw e (rest (ground arith))
        | inr e ↦ rw e (ground arith)
      ]

  all_found-to_clear :
      (removed active : List ℕ)
      → all_found n active ≡ true
      → all_found n removed ≡ true
      → all_found n (to_clear removed active) ≡ true
  unfolding all_found to_clear
  all_found-to_clear removed [] h k = k
  all_found-to_clear removed (id ∷ active) h k = elim (Bool-cases (mem id removed)) [
    | inl e ↦ rw e (all_found-to_clear removed active (ground arith) k)
    | inr e ↦ rw e (
        all_found-to_clear (removed ++ (id ∷ [])) active (ground arith)
          (all_found-append id removed k (ground arith)))
  ]

  pub session_add_vlan-Owns :
      (id : ℕ) (s : Session)
      → (leb 2 id && ltb id (n + 2)) ≡ true
      → Owns n s
      → Owns n (session_add_vlan id s)
  unfolding session_add_vlan
  session_add_vlan-Owns id s k o = elim (Bool-cases (mem id s.active_vlans)) [
    | inl e ↦ rw e o
    | inr e ↦ rw e (all_found-append id s.active_vlans o.0 k, o.1)
  ]

  pub session_remove_vlan-Owns :
      (id : ℕ) (s : Session) → Owns n s → Owns n (session_remove_vlan id s)
  unfolding session_remove_vlan
  session_remove_vlan-Owns id s o = elim (Bool-cases (mem id s.active_vlans)) [
    | inl e ↦ rw e (
      all_found-remove_id id s.active_vlans o.0,
      all_found-append id s.removed_vlans o.1 (all_found-mem id s.active_vlans o.0 e),
    )
    | inr e ↦ rw e o
  ]

  pub clear_object-Owns :
      (send : List ℕ → Bool) (s : Session) (st : VlanSet)
      → Owns n s
      → Owns n (clear_object send s st).0
  unfolding clear_object
  clear_object-Owns send s st o = elim (Bool-cases s.cleared) [
    | inl e ↦ rw e o
    | inr e ↦ rw e (o.0, all_found-to_clear s.removed_vlans s.active_vlans o.0 o.1)
  ]

  pub clear_finds-Owns : (s : Session) → Owns n s → clear_finds n s ≡ true
  unfolding clear_finds
  clear_finds-Owns s o =
      let found = all_found-to_clear s.removed_vlans s.active_vlans o.0 o.1 in ground arith

  pub create_finds-Owns : (s : Session) → Owns n s → create_finds n s ≡ true
  unfolding create_finds
  create_finds-Owns s o = let found = o.0 in ground arith

  pub remove_finds-Owns : (id : ℕ) (s : Session) → Owns n s → remove_finds n id s ≡ true
  unfolding remove_finds
  remove_finds-Owns id s o =
      let found = clear_finds-Owns (session_remove_vlan id s) (session_remove_vlan-Owns id s o) in
      ground arith

  pub all_clear_find-Owns : (ss : List Session) → All (Owns n) ss → all_clear_find n ss ≡ true
  unfolding all_clear_find
  all_clear_find-Owns [] o = refl
  all_clear_find-Owns (s ∷ ss) o =
      let here = clear_finds-Owns s o.0 in let rest = all_clear_find-Owns ss o.1 in ground arith
