-- ===== src/Shared/Dispatcher/Fresh.antt =====
-- Histories of the dispatcher, and the markers that are still to be given out.
use onldaemons.Prelude.{
  ℕ, suc, ◌+◌, ◌%◌, ◌^◌, ◌<◌, ◌≤◌, ◌≡◌, ap, sym, Option, Option-cases, none, some, List, [], ◌∷◌,
  length, ==_refl, arith, inl, inr,
}
use onldaemons.Shared.Rendezvous.{Rendezvous}
use onldaemons.Shared.Message.{Request}
use onldaemons.Shared.Dispatcher.{
  RendMap, find, assign, Dispatcher, bump, next_marker, register_rendezvous,
  register_periodic_rendezvous, call_response, call_periodic, clear_rendezvous,
  clear_periodic_rendezvous,
}
use onldaemons.Shared.Dispatcher.Map.{Below, erase-Below, assign-Below, Below-mono}

pub record IsFresh (n : ℕ) (d : Dispatcher) : Type 0 where
  pub below : Below d.next_seq d.rend_map
  pub few : (i : ℕ) → d.next_seq i ≤ suc n

pub next_marker_id : (d : Dispatcher) (op : ℕ) → (next_marker d op).id ≡ op % 256
unfolding next_marker
next_marker_id d op = omega arith

pub next_marker_seq :
    (d : Dispatcher) (op : ℕ) → (next_marker d op).seq ≡ d.next_seq (next_marker d op).id
unfolding next_marker
next_marker_seq d op = ap d.next_seq (sym (next_marker_id d op))

bump-grows :
    (n : ℕ) (f : ℕ → ℕ) (id : ℕ)
    → ((i : ℕ) → f i ≤ suc n)
    → n + 2 < 2 ^ 32
    → (i : ℕ) → f i ≤ bump f id i
bump-grows n f id h small i = let low = h i in ground arith

bump-few :
    (n : ℕ) (f : ℕ → ℕ) (id : ℕ) → ((i : ℕ) → f i ≤ suc n) → (i : ℕ) → bump f id i ≤ suc (suc n)
bump-few n f id h i = let low = h i in ground arith

-- Every registration uses the marker up.
marker-used :
    (n : ℕ) (f : ℕ → ℕ) (id j : ℕ)
    → ((i : ℕ) → f i ≤ suc n)
    → n + 2 < 2 ^ 32
    → j ≡ id
    → f j < bump f id j
marker-used n f id j h small same = let low = h j in ground (arith, ==_refl id)

registered :
    (n : ℕ) (d : Dispatcher) (op req : ℕ) (requests : ℕ → Request)
    → IsFresh n d
    → n + 2 < 2 ^ 32
    → IsFresh (suc n) (record {
      next_seq = bump d.next_seq (op % 256);
      requests = requests;
      rend_map = assign (next_marker d op) req d.rend_map;
    })
registered n d op req requests v small = record {
  below =
      let used = marker-used n d.next_seq (op % 256) _ v.few small (next_marker_id d op) in
      assign-Below _ (next_marker d op) req d.rend_map
        (Below-mono d.next_seq _ d.rend_map (bump-grows n d.next_seq (op % 256) v.few small)
          v.below)
        (omega (arith, next_marker_seq d op));
  few = bump-few n d.next_seq (op % 256) v.few;
}

pub data Event : Type 0 where
  -- dispatcher::register_rendezvous and the other operations, on a request object
  register register_periodic : Option ℕ → Event
  clear clear_periodic : ℕ → Event
  response periodic : ℕ → Rendezvous → Event
  -- the owners of the requests write to them
  rewrite : (ℕ → Request) → Event

unfoldable pub apply : Event → Dispatcher → Dispatcher
unfolding register_rendezvous register_periodic_rendezvous clear_rendezvous
    clear_periodic_rendezvous call_response call_periodic
apply (register req) d = register_rendezvous req d
apply (register_periodic req) d = register_periodic_rendezvous req d
apply (clear req) d = clear_rendezvous req d
apply (clear_periodic req) d = clear_periodic_rendezvous req d
apply (response res rend) d = (call_response res rend d).0
apply (periodic op rend) d = (call_periodic op rend d).0
apply (rewrite requests) d = record d { requests = requests }

unfoldable pub run : List Event → Dispatcher → Dispatcher
unfolding apply
run [] d = d
run (e ∷ es) d = run es (apply e d)

weaker : (n : ℕ) (d : Dispatcher) → IsFresh n d → IsFresh (suc n) d
weaker n d v = record { below = v.below; few = λ i. let low = v.few i in omega arith }

unwaited :
    (n : ℕ) (d : Dispatcher) (m : RendMap) (requests : ℕ → Request)
    → IsFresh n d
    → Below d.next_seq m
    → IsFresh (suc n) (record d { rend_map = m; requests = requests })
unwaited n d m requests v b = record { below = b; few = (weaker n d v).few }

pub apply-IsFresh :
    (n : ℕ) (e : Event) (d : Dispatcher)
    → IsFresh n d
    → n + 2 < 2 ^ 32
    → IsFresh (suc n) (apply e d)
unfolding apply register_rendezvous register_periodic_rendezvous clear_rendezvous
    clear_periodic_rendezvous call_response call_periodic
apply-IsFresh n (register none) d v small = weaker n d v
apply-IsFresh n (register (some req)) d v small = registered n d _ req _ v small
apply-IsFresh n (register_periodic none) d v small = weaker n d v
apply-IsFresh n (register_periodic (some req)) d v small = registered n d _ req _ v small
apply-IsFresh n (clear req) d v small = unwaited n d _ _ v (erase-Below _ _ _ v.below)
apply-IsFresh n (clear_periodic req) d v small = unwaited n d _ _ v (erase-Below _ _ _ v.below)
apply-IsFresh n (response res rend) d v small = elim (Option-cases (find rend d.rend_map)) [
  | inl e ↦ rw (e, apply, call_response, call_periodic) (weaker n d v)
  | inr (req, e) ↦ rw (e, apply, call_response, call_periodic) (unwaited n d _ _ v v.below)
]
apply-IsFresh n (periodic op rend) d v small = elim (Option-cases (find rend d.rend_map)) [
  | inl e ↦ rw (e, apply, call_response, call_periodic) (weaker n d v)
  | inr (req, e) ↦ rw (e, apply, call_response, call_periodic) (unwaited n d _ _ v v.below)
]
apply-IsFresh n (rewrite requests) d v small = unwaited n d _ _ v v.below

pub run-IsFresh :
    (n : ℕ) (es : List Event) (d : Dispatcher)
    → IsFresh n d
    → n + length es + 1 < 2 ^ 32
    → IsFresh (n + length es) (run es d)
unfolding run
run-IsFresh n [] d v small = let stays : n + 0 ≡ n = omega arith in rw stays v
run-IsFresh n (e ∷ es) d v small =
    let shift : n + suc (length es) ≡ suc n + length es = omega arith in
    rw shift
      (run-IsFresh (suc n) es (apply e d) (apply-IsFresh n e d v (omega arith)) (omega arith))
