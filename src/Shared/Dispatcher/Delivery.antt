-- ===== src/Shared/Dispatcher/Delivery.antt =====
-- A response reaches the request that waits for it, and no other request, over any history.
use onldaemons.Prelude.{
  ℕ, suc, ◌+◌, ◌^◌, ◌<◌, ◌≡◌, ◌∙◌, ap, refl, Bool, true, false, not, ◌&&◌, Option-cases, none, some,
  List, [], ◌∷◌, length, ◌==◌ as nat_eq, ==_refl, arith, Bool-cases, inl, inr,
}
use onldaemons.Shared.Rendezvous.{Rendezvous}
use onldaemons.Shared.Message.{Request, note_response}
use onldaemons.Shared.Dispatcher.Fresh.{
  IsFresh, next_marker_seq, Event, register, register_periodic, clear, clear_periodic, response,
  periodic, rewrite, apply, run, apply-IsFresh, run-IsFresh,
}
use onldaemons.Shared.Dispatcher.{
  RendMap, equivalent, find, assign, erase, Dispatcher, new_dispatcher, next_marker,
  register_rendezvous, register_periodic_rendezvous, call_response, call_periodic, clear_rendezvous,
  clear_periodic_rendezvous,
}
use onldaemons.Shared.Dispatcher.Map.{equivalent_iff, find-assign, find-erase, find_above}

-- The event does not take the marker `k` out of the map.
unfoldable pub spares : Rendezvous → Event → Dispatcher → Bool
spares k (register req) d = true
spares k (register_periodic req) d = true
spares k (clear req) d = not (equivalent (d.requests req).message.rend k)
spares k (clear_periodic req) d = not (equivalent (d.requests req).message.return_rend k)
spares k (response res rend) d = true
spares k (periodic op rend) d = true
spares k (rewrite requests) d = true

unfoldable pub all_spare : Rendezvous → List Event → Dispatcher → Bool
unfolding spares apply
all_spare k [] d = true
all_spare k (e ∷ es) d = spares k e d && all_spare k es (apply e d)

marker_keeps :
    (n : ℕ) (d : Dispatcher) (op req : ℕ) (k : Rendezvous) (r : ℕ)
    → IsFresh n d
    → find k d.rend_map ≡ some r
    → find k (assign (next_marker d op) req d.rend_map) ≡ some r
marker_keeps n d op req k r v found =
    let j = next_marker d op in
    elim (Bool-cases (equivalent j k)) [
      | inl e ↦
          let same = (equivalent_iff j k).0 e in
          let lost : find k d.rend_map ≡ none =
            find_above d.next_seq k d.rend_map v.below
              (omega (arith, same.1, next_marker_seq d op, ap d.next_seq same.0)) in
          cc
      | inr e ↦ find-assign j k req d.rend_map ∙ rw e found
    ]

cleared_keeps :
    (j k : Rendezvous) (m : RendMap) → not (equivalent j k) ≡ true → find k (erase j m) ≡ find k m
cleared_keeps j k m h = ground (arith, find-erase j k m)

apply_keeps :
    (n : ℕ) (k : Rendezvous) (r : ℕ) (e : Event) (d : Dispatcher)
    → IsFresh n d
    → spares k e d ≡ true
    → find k d.rend_map ≡ some r
    → find k (apply e d).rend_map ≡ some r
unfolding apply spares register_rendezvous register_periodic_rendezvous clear_rendezvous
    clear_periodic_rendezvous call_response call_periodic
apply_keeps n k r (register none) d v s f = f
apply_keeps n k r (register (some req)) d v s f = marker_keeps n d _ req k r v f
apply_keeps n k r (register_periodic none) d v s f = f
apply_keeps n k r (register_periodic (some req)) d v s f = marker_keeps n d _ req k r v f
apply_keeps n k r (clear req) d v s f = cleared_keeps _ k d.rend_map s ∙ f
apply_keeps n k r (clear_periodic req) d v s f = cleared_keeps _ k d.rend_map s ∙ f
apply_keeps n k r (response res rend) d v s f = elim (Option-cases (find rend d.rend_map)) [
  | inl e ↦ rw (e, apply, call_response, call_periodic) f
  | inr (req, e) ↦ rw (e, apply, call_response, call_periodic) f
]
apply_keeps n k r (periodic op rend) d v s f = elim (Option-cases (find rend d.rend_map)) [
  | inl e ↦ rw (e, apply, call_response, call_periodic) f
  | inr (req, e) ↦ rw (e, apply, call_response, call_periodic) f
]
apply_keeps n k r (rewrite requests) d v s f = f

pub run_keeps :
    (n : ℕ) (k : Rendezvous) (r : ℕ) (es : List Event) (d : Dispatcher)
    → IsFresh n d
    → n + length es + 1 < 2 ^ 32
    → all_spare k es d ≡ true
    → find k d.rend_map ≡ some r
    → find k (run es d).rend_map ≡ some r
unfolding run all_spare
run_keeps n k r [] d v small s f = f
run_keeps n k r (e ∷ es) d v small s f =
    let now : (spares k e d ≡ true) × (all_spare k es (apply e d) ≡ true) = ground arith in
    run_keeps (suc n) k r es (apply e d) (apply-IsFresh n e d v (omega arith)) (omega arith) now.1
      (apply_keeps n k r e d v now.0 f)

pub at_start : (requests : ℕ → Request) → IsFresh 0 (new_dispatcher requests)
unfolding new_dispatcher
at_start requests = record { below = tt; few = λ i. omega arith }

-- The marker that a registration of the request gives it.
abbrev pub marker_of : ℕ → Dispatcher → Rendezvous
marker_of req d = next_marker d (d.requests req).message.op

pub reg_finds :
    (d : Dispatcher) (req : ℕ)
    → find (marker_of req d) (register_rendezvous (some req) d).rend_map ≡ some req
unfolding register_rendezvous
reg_finds d req =
    let k = next_marker d (d.requests req).message.op in
    find-assign k k req d.rend_map ∙ rw ((equivalent_iff k k).1 (refl, refl)) refl

-- `answered` is `last` with the response given to the request, and to no other.
abbrev pub Answers : ℕ → ℕ → Dispatcher → Dispatcher × Bool → Type 0
Answers req res last (answered, deleted) =
    (deleted ≡ false)
    × ((answered.requests req).received_response ≡ true)
    × ((answered.requests req).resp ≡ some res)
    × ((q : ℕ) → nat_eq req q ≡ false → answered.requests q ≡ last.requests q)

pub response_lem :
    (d : Dispatcher) (res req : ℕ) (k : Rendezvous)
    → find k d.rend_map ≡ some req
    → Answers req res d (call_response res k d)
unfolding call_response note_response
response_lem d res req k f =
    let here = ==_refl req in
    rw (f, call_response) (refl, rw here refl, rw here refl, λ q e. rw e refl)

Answers-after :
    (n : ℕ) (d : Dispatcher) (after : List Event) (req res : ℕ)
    → IsFresh n d
    → n + length after + 2 < 2 ^ 32
    → all_spare (marker_of req d) after (register_rendezvous (some req) d) ≡ true
    → Answers req res
        (run after (register_rendezvous (some req) d))
        (call_response res (marker_of req d) (run after (register_rendezvous (some req) d)))
unfolding apply
Answers-after n d after req res v small spared = response_lem _ res req (marker_of req d) (
    run_keeps (suc n) (marker_of req d) req after _
      (apply-IsFresh n (register (some req)) d v (omega arith)) (omega arith) spared
      (reg_finds d req))

-- From the start of the program, a request is registered after any history of the operations and of
-- writes by the requests' owners, and is sent with the marker that it got. After any further history
-- that does not clear this marker, a response with the marker is kept by this very request, which
-- counts as answered by it; it is not given back for deletion, and every other request stays as it
-- was. The two histories have fewer than 2 ^ 32 - 2 events together.
pub response_reaches_request :
    (requests : ℕ → Request) (before after : List Event) (req res : ℕ)
    → length before + length after + 2 < 2 ^ 32
    → let d = run before (new_dispatcher requests) in
      all_spare (marker_of req d) after (register_rendezvous (some req) d) ≡ true
      → let d = run before (new_dispatcher requests) in
        let last = run after (register_rendezvous (some req) d) in
        Answers req res last (call_response res (marker_of req d) last)
response_reaches_request requests before after req res small spared =
    Answers-after (0 + length before) _ after req res
      (run-IsFresh 0 before (new_dispatcher requests) (at_start requests) (omega arith))
      (omega arith) spared

-- After clear_rendezvous a response with the marker that the request had finds nobody: it is given
-- back for deletion and nothing changes. Every marker with another key is found as before.
pub call_response-clear_rendezvous :
    (d : Dispatcher) (req res : ℕ)
    → let old = (d.requests req).message.rend in
      let d' = clear_rendezvous req d in
      (call_response res old d' ≡ (d', true))
      × ((k : Rendezvous) → equivalent old k ≡ false → find k d'.rend_map ≡ find k d.rend_map)
unfolding clear_rendezvous call_response
call_response-clear_rendezvous d req res =
    let old = (d.requests req).message.rend in
    let gone : find old (erase old d.rend_map) ≡ none =
      ground (arith, find-erase old old d.rend_map, equivalent_iff old old) in
    (
      rw (gone, call_response, clear_rendezvous) refl,
      λ k e. cleared_keeps old k d.rend_map (rw e refl),
    )
