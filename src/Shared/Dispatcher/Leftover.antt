-- ===== src/Shared/Dispatcher/Leftover.antt =====
-- request::send_and_wait (shared/message.cc): an answer that comes after its wait has ended.
use onldaemons.Prelude.{
  ℕ, suc, ◌+◌, ◌^◌, ◌<◌, ◌≡◌, refl, true, false, some, List, [], ◌∷◌, ◌++◌, length, ==_refl, arith,
}
use onldaemons.Shared.Message.{Request}
use onldaemons.Shared.Dispatcher.{
  find, Dispatcher, new_dispatcher, register_rendezvous, clear_rendezvous,
}
use onldaemons.Shared.Dispatcher.Fresh.{
  Event, register, response, rewrite, apply, run, IsFresh, apply-IsFresh, run-IsFresh,
}
use onldaemons.Shared.Dispatcher.Delivery.{
  marker_of, all_spare, run_keeps, reg_finds, at_start, response_lem,
}
use onldaemons.Shared.Dispatcher.Wait.{
  Wake, received, acknowledge, wait_loop, wait_loop_stops, finish_wait, wait_for_response,
  clear_after, send_and_wait, run-++,
}

-- The wait times out, and nothing else happens meanwhile.
abbrev pub timeout : Wake
timeout = record { during = []; timed_out = true }

-- The request is marked as answered, by `res`.
abbrev Marked : ℕ → ℕ → Dispatcher → Type 0
Marked req res d = (received req d ≡ true) × ((d.requests req).resp ≡ some res)

cleared-Marked :
    (req res : ℕ) (d : Dispatcher) → Marked req res d → Marked req res (clear_rendezvous req d)
unfolding clear_rendezvous
cleared-Marked req res d m = let here = ==_refl req in (rw (here, received) m.0, rw here m.1)

registered-Marked :
    (req res : ℕ) (d : Dispatcher)
    → Marked req res d
    → Marked req res (register_rendezvous (some req) d)
unfolding register_rendezvous
registered-Marked req res d m = let here = ==_refl req in (rw (here, received) m.0, rw here m.1)

wait_times_out :
    (req : ℕ) (d : Dispatcher)
    → received req d ≡ false
    → wait_loop req (timeout ∷ []) false d ≡ some (d, true)
unfolding wait_loop run
wait_times_out req d quiet = rw quiet refl

registered_quiet :
    (req : ℕ) (d : Dispatcher)
    → received req d ≡ false
    → received req (register_rendezvous (some req) d) ≡ false
unfolding register_rendezvous
registered_quiet req d quiet = let here = ==_refl req in rw (here, received) quiet

timed_out_lem :
    (req : ℕ) (late : List Event) (d : Dispatcher)
    → received req d ≡ false
    → send_and_wait req true [] (timeout ∷ []) late d
      ≡ some (
        clear_rendezvous req (run late (acknowledge req (register_rendezvous (some req) d))),
        false,
      )
unfolding send_and_wait wait_for_response finish_wait clear_after run
timed_out_lem req late d quiet =
    rw (wait_times_out req (register_rendezvous (some req) d) (registered_quiet req d quiet)) refl

-- With the mark set, the wait does not start.
returns_at_once :
    (req res : ℕ) (wakes : List Wake) (d : Dispatcher)
    → Marked req res d
    → (d' : Dispatcher) × (send_and_wait req true [] wakes [] d ≡ some (d', true))
      × ((d'.requests req).resp ≡ some res)
unfolding send_and_wait wait_for_response finish_wait clear_after run clear_rendezvous
returns_at_once req res wakes d m =
    let here = ==_refl req in
    let m' = registered-Marked req res d m in
    let stop = wait_loop_stops req wakes false (register_rendezvous (some req) d) (rw m'.0 refl) in
    (
      clear_rendezvous req (acknowledge req (register_rendezvous (some req) d)),
      rw stop refl,
      rw here m.1,
    )

late_answer :
    (n : ℕ) (d : Dispatcher) (pre : List Event) (req res : ℕ)
    → IsFresh n d
    → n + length pre + 3 < 2 ^ 32
    → all_spare (marker_of req d) pre (acknowledge req (register_rendezvous (some req) d)) ≡ true
    → Marked req res (
        run
          (pre ++ (response res (marker_of req d) ∷ []))
          (acknowledge req (register_rendezvous (some req) d)))
unfolding run apply all_spare
late_answer n d pre req res v small spared =
    let k = marker_of req d in
    let d1 = register_rendezvous (some req) d in
    let d2 = acknowledge req d1 in
    let found : find k (run pre d2).rend_map ≡ some req =
      run_keeps (suc n) k req (rewrite d2.requests ∷ pre) d1
        (apply-IsFresh n (register (some req)) d v (omega arith)) (omega arith) spared
        (reg_finds d req) in
    let (_, marked, kept, _) = response_lem (run pre d2) res req k found in
    rw (run-++ pre (response res k ∷ []) d2) (marked, kept)

leftover_after :
    (n : ℕ) (d : Dispatcher) (pre : List Event) (req res : ℕ) (wakes : List Wake)
    → IsFresh n d
    → n + length pre + 3 < 2 ^ 32
    → received req d ≡ false
    → all_spare (marker_of req d) pre (acknowledge req (register_rendezvous (some req) d)) ≡ true
    → (d1 : Dispatcher) × (send_and_wait req true []
          (timeout ∷ [])
          (pre ++ (response res (marker_of req d) ∷ []))
          d
        ≡ some (d1, false))
      × (d2 : Dispatcher) × (send_and_wait req true [] wakes [] d1 ≡ some (d2, true))
      × ((d2.requests req).resp ≡ some res)
leftover_after n d pre req res wakes v small quiet spared =
    let late = pre ++ (response res (marker_of req d) ∷ []) in
    let last = run late (acknowledge req (register_rendezvous (some req) d)) in
    let marked = cleared-Marked req res last (late_answer n d pre req res v small spared) in
    let (d2, returns, old) = returns_at_once req res wakes (clear_rendezvous req last) marked in
    (clear_rendezvous req last, timed_out_lem req late d quiet, d2, returns, old)

-- A request is registered and sent after any history from the start of the program in which it was not
-- left marked as answered. Its wait times out, and nothing else happens until then, so send_and_wait
-- returns false; but after the wait, and any events that do not clear the request's marker, the
-- response comes before send_and_wait clears it. The next send_and_wait of the request then returns
-- true, whatever the returns of its wait would have been, with no event during it and so with no
-- response to its own marker, and the request has the old response. The histories have fewer than
-- 2 ^ 32 - 3 events together.
pub send_and_wait_leftover :
    (requests : ℕ → Request) (before pre : List Event) (req res : ℕ) (wakes : List Wake)
    → length before + length pre + 3 < 2 ^ 32
    → received req (run before (new_dispatcher requests)) ≡ false
    → let d = run before (new_dispatcher requests) in
      all_spare (marker_of req d) pre (acknowledge req (register_rendezvous (some req) d)) ≡ true
      → let d = run before (new_dispatcher requests) in
        (d1 : Dispatcher) × (send_and_wait req true []
            (timeout ∷ [])
            (pre ++ (response res (marker_of req d) ∷ []))
            d
          ≡ some (d1, false))
        × (d2 : Dispatcher) × (send_and_wait req true [] wakes [] d1 ≡ some (d2, true))
        × ((d2.requests req).resp ≡ some res)
send_and_wait_leftover requests before pre req res wakes small quiet spared =
    leftover_after (0 + length before) _ pre req res wakes
      (run-IsFresh 0 before (new_dispatcher requests) (at_start requests) (omega arith))
      (omega arith) quiet spared
