-- ===== src/Shared/Connection/Process.antt =====
-- What becomes of a message that has come in: nccp_connection::process_message and the round of
-- receive_messages_forever that starts it.
pub mod Counts
use onldaemons.Prelude.{
  ℕ, ◌+◌, ◌*◌, ◌≡◌, Bool, true, false, not, ◌&&◌, ◌||◌, Option, none, some, List, [], ◌∷◌,
  if◌then◌else◌,
}
use onldaemons.Shared.Rendezvous.{Rendezvous}
use onldaemons.Shared.Message.{Message, Request}
use onldaemons.Shared.Dispatcher.{
  Dispatcher, Registry, Created, a_request, a_response, a_periodic, create_message, set_request,
  register_periodic_rendezvous, clear_periodic_rendezvous, call_response, call_periodic,
}
use onldaemons.Shared.Dispatcher.Fresh.{Event, run}
use onldaemons.Shared.Connection.{Connection, increment_msg_count, decrement_msg_count}

-- One round of the loop of a periodic request: what other threads do until its end, the result of
-- `handle`, whether timespec_diff leaves time to sleep, and whether nanosleep fails.
pub record Round : Type 0 where
  pub during : List Event
  pub handled : Bool
  pub in_time : Bool
  pub sleep_failed : Bool

-- while(!req->stopped()); the second result is `delete_msg`. No result means that it still runs.
pub periodic_loop : ℕ → List Round → Bool → Dispatcher → Option (Dispatcher × Bool)
unfolding run
periodic_loop req [] delete_msg d =
    if (d.requests req).received_stop then some (d, delete_msg) else none
periodic_loop req (r ∷ rs) delete_msg d =
    let d' = run r.during d in
    let rest = periodic_loop req rs r.handled d' in
    if (d.requests req).received_stop
    then some (d, delete_msg)
    else if r.in_time && r.sleep_failed
    then some (d', r.handled)
    else rest

-- A message that has come in: its bytes, the address of the object that they become and the fields
-- that parsing gives it, the result of its handler, and the rounds of a periodic request. `dropped` is
-- whether its owner deletes the object, if process_message leaves it to him.
pub record Arrival : Type 0 where
  pub mbuf : ℕ → ℕ
  pub address : ℕ
  pub parsed : Request
  pub handled : Bool
  pub rounds : List Round
  pub dropped : Bool

stop_periodic : ℕ → Option (Dispatcher × Bool) → Option (Dispatcher × Bool)
stop_periodic req none = none
stop_periodic req (some (d, delete_msg)) = some (clear_periodic_rendezvous req d, delete_msg)

-- The case of a request.
process_request : Arrival → Dispatcher → Option (Dispatcher × Bool)
unfolding periodic_loop stop_periodic
process_request a d =
    let d' = record d { requests = set_request d.requests a.address a.parsed } in
    if a.parsed.message.periodic_message
    then stop_periodic a.address
        (periodic_loop a.address a.rounds true (register_periodic_rendezvous (some a.address) d'))
    else some (d', a.handled)

-- The switch of process_message: the dispatcher after it, and whether the object is deleted.
dispatch : Created → Arrival → Dispatcher → Option (Dispatcher × Bool)
unfolding process_request
dispatch (a_request cls) a d = process_request a d
dispatch (a_response cls) a d = some (call_response a.address a.parsed.message.rend d)
dispatch a_periodic a d = some (call_periodic a.parsed.message.op a.parsed.message.rend d)

-- ~message() counts the object down.
after_delete :
    Arrival → Option (Dispatcher × Bool) → Dispatcher × Connection → Dispatcher × Connection
unfolding decrement_msg_count
after_delete a none (d, c) = (d, c)
after_delete a (some (d', deleted)) (d, c) =
    if deleted || a.dropped then (d', decrement_msg_count c) else (d', c)

process_created : Option Created → Arrival → Dispatcher × Connection → Dispatcher × Connection
unfolding dispatch after_delete increment_msg_count
process_created none a (d, c) = (d, c)
process_created (some m) a (d, c) = after_delete a (dispatch m a d) (d, increment_msg_count c)

-- process_message: set_connection counts the new object up. Of a periodic request whose loop has not
-- ended with its rounds, only the object is counted.
pub process_message : Registry → Arrival → Dispatcher × Connection → Dispatcher × Connection
unfolding process_created
process_message g a st = process_created (create_message g a.mbuf) a st

-- A round of receive_messages_forever counts up as well, and the thread that it starts processes the
-- message.
pub receive_message : Registry → Arrival → Dispatcher × Connection → Dispatcher × Connection
unfolding process_message increment_msg_count
receive_message g a (d, c) = process_message g a (d, increment_msg_count c)

pub serve : Registry → List Arrival → Dispatcher × Connection → Dispatcher × Connection
unfolding receive_message
serve g [] st = st
serve g (a ∷ rest) st = serve g rest (receive_message g a st)
