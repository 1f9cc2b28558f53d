-- ===== src/Shared/Dispatcher/Wait.antt =====
-- request::wait_for_response and request::send_and_wait (shared/message.cc): the thread that sends a
-- request and waits, while the threads of the connections run the dispatcher.
use onldaemons.Prelude.{
  ℕ, suc, ◌+◌, ◌^◌, ◌<◌, ◌≡◌, sym, refl, Bool, true, false, not, ◌||◌, Option, none, some, List, [],
  ◌∷◌, ◌++◌, length, ==_refl, if◌then◌else◌, arith, Bool-cases, inl, inr,
}
use onldaemons.Shared.Rendezvous.{Rendezvous}
use onldaemons.Shared.Message.{Request}
use onldaemons.Shared.Dispatcher.{
  find, Dispatcher, new_dispatcher, register_rendezvous, call_response, clear_rendezvous,
  set_request,
}
use onldaemons.Shared.Dispatcher.Fresh.{
  Event, register, response, apply, run, IsFresh, apply-IsFresh, run-IsFresh,
}
use onldaemons.Shared.Dispatcher.Delivery.{
  marker_of, all_spare, run_keeps, reg_finds, at_start, response_lem,
}

-- One return of pthread_cond_timedwait: what the other threads did meanwhile, and whether the result
-- is ETIMEDOUT.
pub record Wake : Type 0 where
  pub during : List Event
  pub timed_out : Bool

abbrev pub received : ℕ → Dispatcher → Bool
received req d = (d.requests req).received_response

-- while((!received_response) && (wait_rc != ETIMEDOUT)); the second result is whether `wait_rc` is
-- ETIMEDOUT, and the loop has no result while it waits for one more return.
unfoldable pub wait_loop : ℕ → List Wake → Bool → Dispatcher → Option (Dispatcher × Bool)
unfolding run
wait_loop req [] rc d = if received req d || rc then some (d, rc) else none
wait_loop req (w ∷ ws) rc d =
    let rest = wait_loop req ws w.timed_out (run w.during d) in
    if received req d || rc then some (d, rc) else rest

-- received_response = false
abbrev pub acknowledge : ℕ → Dispatcher → Dispatcher
acknowledge req d = record d {
  requests = set_request d.requests req (record (d.requests req) { received_response = false });
}

unfoldable pub finish_wait : ℕ → Option (Dispatcher × Bool) → Option (Dispatcher × Bool)
finish_wait req none = none
finish_wait req (some (d, rc)) = some (acknowledge req d, not rc)

unfoldable pub wait_for_response : ℕ → List Wake → Dispatcher → Option (Dispatcher × Bool)
unfolding wait_loop finish_wait
wait_for_response req wakes d = finish_wait req (wait_loop req wakes false d)

unfoldable pub clear_after :
    ℕ → List Event → Option (Dispatcher × Bool) → Option (Dispatcher × Bool)
unfolding clear_rendezvous run
clear_after req late none = none
clear_after req late (some (d, got_reply)) = some (clear_rendezvous req (run late d), got_reply)

-- `sent` is the result of message::send, `sending` what the other threads do until the wait starts,
-- and `late` what they do after it.
unfoldable pub send_and_wait :
    ℕ → Bool → List Event → List Wake → List Event → Dispatcher → Option (Dispatcher × Bool)
unfolding register_rendezvous clear_rendezvous run wait_for_response clear_after
send_and_wait req sent sending wakes late d =
    let d1 = run sending (register_rendezvous (some req) d) in
    if sent
    then clear_after req late (wait_for_response req wakes d1)
    else some (clear_rendezvous req d1, false)

pub run-++ : (es fs : List Event) (d : Dispatcher) → run (es ++ fs) d ≡ run fs (run es d)
unfolding run
run-++ [] fs d = refl
run-++ (e ∷ es) fs d = run-++ es fs (apply e d)

pub wait_loop_stops :
    (req : ℕ) (wakes : List Wake) (rc : Bool) (d : Dispatcher)
    → (received req d || rc) ≡ true
    → wait_loop req wakes rc d ≡ some (d, rc)
unfolding wait_loop
wait_loop_stops req [] rc d h = rw h refl
wait_loop_stops req (w ∷ ws) rc d h = rw h refl

-- The wait ends with the first return if the response is the last thing that happened in it.
wait_lem :
    (d : Dispatcher) (req res : ℕ) (k : Rendezvous) (pre : List Event) (ws : List Wake)
    → received req d ≡ false
    → find k (run pre d).rend_map ≡ some req
    → wait_loop req
        (record { during = pre ++ (response res k ∷ []); timed_out = false } ∷ ws)
        false
        d
      ≡ some ((call_response res k (run pre d)).0, false)
unfolding wait_loop run apply
wait_lem d req res k pre ws quiet found =
    let answers = response_lem (run pre d) res req k found in
    rw (quiet, run-++ pre (response res k ∷ []) d)
      (wait_loop_stops req ws false _ (rw answers.1 refl))

answered_after :
    (n : ℕ) (d : Dispatcher) (sending pre late : List Event) (req res : ℕ) (ws : List Wake)
    → IsFresh n d
    → n + length (sending ++ pre) + 2 < 2 ^ 32
    → all_spare (marker_of req d) (sending ++ pre) (register_rendezvous (some req) d) ≡ true
    → received req (run sending (register_rendezvous (some req) d)) ≡ false
    → let k = marker_of req d in
      let (answered, _) =
        call_response res k (run (sending ++ pre) (register_rendezvous (some req) d)) in
      send_and_wait req true sending
        (record { during = pre ++ (response res k ∷ []); timed_out = false } ∷ ws)
        late
        d
      ≡ some (clear_rendezvous req (run late (acknowledge req answered)), true)
unfolding send_and_wait wait_for_response finish_wait clear_after apply
answered_after n d sending pre late req res ws v small spared quiet =
    let k = marker_of req d in
    let d1 = register_rendezvous (some req) d in
    let split = run-++ sending pre d1 in
    let found : find k (run pre (run sending d1)).rend_map ≡ some req = rw (sym split) (
      run_keeps (suc n) k req (sending ++ pre) d1
        (apply-IsFresh n (register (some req)) d v (omega arith)) (omega arith) spared
        (reg_finds d req)) in
    rw (split, wait_lem (run sending d1) req res k pre ws quiet found) refl

-- A request is registered after any history from the start of the program, and its message is sent.
-- If the request was not already marked as answered when the wait starts, and the first return of the
-- wait is no timeout and comes right after a response with the request's marker, before which any
-- events happened that do not clear the marker, then send_and_wait returns true; the request is left
-- with that response's effect, its mark taken back, and its marker is cleared after whatever else
-- happens until then. The histories have fewer than 2 ^ 32 - 2 events together.
pub send_and_wait_answered :
    (requests : ℕ → Request) (before sending pre late : List Event) (req res : ℕ) (ws : List Wake)
    → length before + length (sending ++ pre) + 2 < 2 ^ 32
    → let d = run before (new_dispatcher requests) in
      all_spare (marker_of req d) (sending ++ pre) (register_rendezvous (some req) d) ≡ true
      → received req
          (run sending (register_rendezvous (some req) (run before (new_dispatcher requests))))
        ≡ false
      → let d = run before (new_dispatcher requests) in
        let k = marker_of req d in
        let (answered, _) =
          call_response res k (run (sending ++ pre) (register_rendezvous (some req) d)) in
        send_and_wait req true sending
          (record { during = pre ++ (response res k ∷ []); timed_out = false } ∷ ws)
          late
          d
        ≡ some (clear_rendezvous req (run late (acknowledge req answered)), true)
send_and_wait_answered requests before sending pre late req res ws small spared quiet =
    answered_after (0 + length before) _ sending pre late req res ws
      (run-IsFresh 0 before (new_dispatcher requests) (at_start requests) (omega arith))
      (omega arith) spared quiet

or_true : (b : Bool) → (b || true) ≡ true
or_true b = ground arith

loop_ends :
    (req : ℕ) (pre ws : List Wake) (during : List Event) (rc : Bool) (d : Dispatcher)
    → (r : Dispatcher × Bool) × (wait_loop req
          (pre ++ (record { during = during; timed_out = true } ∷ ws))
          rc
          d
        ≡ some r)
unfolding wait_loop
loop_ends req [] ws during rc d = elim (Bool-cases (received req d || rc)) [
  | inl e ↦ ((d, rc), rw e refl)
  | inr e ↦ ((run during d, true), rw e (wait_loop_stops req ws true (run during d) (or_true _)))
]
loop_ends req (w ∷ pre) ws during rc d = elim (Bool-cases (received req d || rc)) [
  | inl e ↦ ((d, rc), rw e refl)
  | inr e ↦ let (r, h) = loop_ends req pre ws during w.timed_out (run w.during d) in (r, rw e h)
]

-- The wait ends once a return has timed out, however the other threads ran, and the request is then
-- not marked as answered.
pub wait_for_response_ends :
    (req : ℕ) (pre ws : List Wake) (during : List Event) (d : Dispatcher)
    → (d' : Dispatcher) × (got_reply : Bool) × (wait_for_response req
          (pre ++ (record { during = during; timed_out = true } ∷ ws))
          d
        ≡ some (d', got_reply))
      × (received req d' ≡ false)
unfolding wait_for_response finish_wait
wait_for_response_ends req pre ws during d =
    let ((last, rc), h) = loop_ends req pre ws during false d in
    let here = ==_refl req in (acknowledge req last, not rc, rw h refl, rw (received, here) refl)
