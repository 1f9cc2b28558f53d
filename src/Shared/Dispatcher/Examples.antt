-- ===== src/Shared/Dispatcher/Examples.antt =====
-- The theorems on the dispatcher at concrete histories, and runs of it.
use onldaemons.Prelude.{
  ℕ, ◌≡◌, refl, Bool, true, false, none, some, List, [], ◌∷◌, ◌++◌, arith, get_or,
}
use onldaemons.Shared.Rendezvous.{no_rendezvous, of_id}
use onldaemons.Shared.Message.{Request}
use onldaemons.Shared.Dispatcher.{
  Dispatcher, new_dispatcher, equivalent, next_marker, register_rendezvous, call_response,
  clear_rendezvous, Registry, register_req, create_message, a_request,
}
use onldaemons.Shared.Dispatcher.Fresh.{Event, register, clear, response, run, apply}
use onldaemons.Shared.Dispatcher.Delivery.{Answers, marker_of, all_spare, response_reaches_request}
use onldaemons.Shared.Dispatcher.Wait.{
  received, acknowledge, wait_for_response, send_and_wait, send_and_wait_answered,
  wait_for_response_ends,
}
use onldaemons.Shared.Dispatcher.Leftover.{timeout, send_and_wait_leftover}

-- Request `i` has operation `i`.
abbrev idle : ℕ → Request
idle i = record {
  message = record {
    mtype = 1;
    version = 0;
    op = i;
    rend = no_rendezvous;
    periodic_message = false;
    return_rend = no_rendezvous;
  };
  period = record { tv_sec = 0; tv_usec = 0 };
  received_response = false;
  received_stop = false;
  received_ack = false;
  timeout = 30;
  resp = none;
}

abbrev early : List Event
early = register (some 4) ∷ clear 4 ∷ []

abbrev busy : List Event
busy = register (some 5) ∷ response 9 (of_id 5 1) ∷ clear 5 ∷ []

-- The marker that request 4 gets the second time.
second_marker : marker_of 4 (run early (new_dispatcher idle)) ≡ of_id 4 2
unfolding run apply register_rendezvous clear_rendezvous next_marker new_dispatcher
second_marker = refl

response_reaches_request_example :
    let d = run early (new_dispatcher idle) in
    let last = run busy (register_rendezvous (some 4) d) in
    Answers 4 80 last (call_response 80 (marker_of 4 d) last)
unfolding all_spare equivalent run new_dispatcher
response_reaches_request_example = response_reaches_request idle early busy 4 80 (omega arith) refl

abbrev waiting : Dispatcher
waiting = record {
  rend_map = (of_id 4 1, 4) ∷ [];
  next_seq = λ i. 2;
  requests = λ i. record (idle i) { message = record (idle i).message { rend = of_id 4 1 } };
}

send_and_wait_answered_example :
    let d = run early (new_dispatcher idle) in
    let k = marker_of 4 d in
    let (answered, _) = call_response 80 k (run (busy ++ []) (register_rendezvous (some 4) d)) in
    send_and_wait 4 true busy
      (record { during = [] ++ (response 80 k ∷ []); timed_out = false } ∷ [])
      []
      d
    ≡ some (clear_rendezvous 4 (run [] (acknowledge 4 answered)), true)
unfolding all_spare equivalent run new_dispatcher
send_and_wait_answered_example =
    send_and_wait_answered idle early busy [] [] 4 80 [] (omega arith) refl refl

-- Request 4 times out, and is sent once more.
send_and_wait_leftover_example :
    let d = run early (new_dispatcher idle) in
    (d1 : Dispatcher) × (send_and_wait 4 true []
        (timeout ∷ [])
        (busy ++ (response 80 (marker_of 4 d) ∷ []))
        d
      ≡ some (d1, false))
    × (d2 : Dispatcher) × (send_and_wait 4 true [] [] [] d1 ≡ some (d2, true))
    × ((d2.requests 4).resp ≡ some 80)
unfolding all_spare equivalent run new_dispatcher
send_and_wait_leftover_example =
    send_and_wait_leftover idle early busy 4 80 [] (omega arith) refl refl

wait_for_response_ends_example :
    (d' : Dispatcher) × (got_reply : Bool) × (wait_for_response 4
        ([] ++ (record { during = busy; timed_out = true } ∷ []))
        waiting
      ≡ some (d', got_reply))
    × (received 4 d' ≡ false)
wait_for_response_ends_example = wait_for_response_ends 4 [] [] busy waiting

abbrev one_class : Registry
one_class = (register_req 7 1 (record { req_map = λ i. none; resp_map = λ i. none })).0

create_request :
    create_message one_class (λ i. get_or (0 ∷ 1 ∷ 0 ∷ 7 ∷ []) i 0) ≡ some (a_request 1)
unfolding create_message register_req
create_request = refl

-- The header of a response of operation 7, for which no class of responses is there.
create_none : create_message one_class (λ i. get_or (0 ∷ 2 ∷ 0 ∷ 7 ∷ []) i 0) ≡ none
unfolding create_message register_req
create_none = refl
