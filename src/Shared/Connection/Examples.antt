-- ===== src/Shared/Connection/Examples.antt =====
-- The theorems on connections at concrete values, and runs of get_message.
use onldaemons.Prelude.{
  ℕ, ◌≡◌, refl, true, false, none, some, List, [], ◌∷◌, ◌++◌, arith, take, drop, get_or,
}
use onldaemons.Shared.ByteBuffer.{ByteBuffer}
use onldaemons.Shared.ByteBuffer.Emit.{bytes8, bytes16, bytes32, bytes_bool, bytes_timeval}
use onldaemons.Shared.Rendezvous.{of_id, no_rendezvous, bytes_rendezvous}
use onldaemons.Shared.Message.{
  Message, Request, Response, write_request, parse_request, write_response, parse_response,
}
use onldaemons.Shared.Message.Codec.{
  bytes_message, bytes_request, received_request, bytes_response, received_response,
}
use onldaemons.Shared.Dispatcher.{Dispatcher, new_dispatcher, Registry}
use onldaemons.Shared.Connection.{
  Stream, Connection, Listener, accepted, read, word, get_message, send_message, cleanup,
}
use onldaemons.Shared.Connection.Reads.{concat, Alive}
use onldaemons.Shared.Connection.Framing.{get_message_framed, get_message_cut}
use onldaemons.Shared.Connection.EndToEnd.{frame, Parses, request_over_stream, response_over_stream}
use onldaemons.Shared.Connection.Process.{Arrival, serve}
use onldaemons.Shared.Connection.Process.Counts.{elem, served_connection_stays}

abbrev zeros : ℕ → ℕ
zeros i = 0

abbrev conn : Connection
conn = record {
  closed = false;
  finished = false;
  message_count = 0;
  local_addr = 1;
  local_port = 3551;
  remote_addr = 2;
  remote_port = 4000;
}

get_message_framed_example :
    (s' : Stream) × (get_message [] ((0 ∷ 0 ∷ 0 ∷ 3 ∷ 7 ∷ []) ∷ (8 ∷ 9 ∷ 1 ∷ []) ∷ []) conn
      ≡ (some (7 ∷ 8 ∷ 9 ∷ []), s', conn))
    × (concat s' ≡ 1 ∷ [])
    × Alive s'
unfolding concat bytes32
get_message_framed_example =
    get_message_framed [] (7 ∷ 8 ∷ 9 ∷ []) (1 ∷ []) (0 ∷ 0 ∷ 0 ∷ 3 ∷ 7 ∷ []) ((8 ∷ 9 ∷ 1 ∷ []) ∷ [])
      conn (omega arith) (omega arith) (omega arith, (omega arith, tt)) (omega arith) refl

get_message_cut_example :
    ((get_message [] ((0 ∷ 0 ∷ 0 ∷ 3 ∷ 7 ∷ []) ∷ (8 ∷ []) ∷ []) conn).0 ≡ none)
    × ((get_message [] ((0 ∷ 0 ∷ 0 ∷ 3 ∷ 7 ∷ []) ∷ (8 ∷ []) ∷ []) conn).2.closed ≡ true)
unfolding concat bytes32
get_message_cut_example =
    get_message_cut [] (7 ∷ 8 ∷ []) (0 ∷ 0 ∷ 0 ∷ 3 ∷ 7 ∷ []) ((8 ∷ []) ∷ []) conn 3 (omega arith)
      (omega arith, (omega arith, tt)) (omega arith) refl (omega arith)

-- A length that comes in by two reads is taken with what the variable held: 3 is read as 261.
split_length :
    (get_message (0 ∷ 0 ∷ 1 ∷ 5 ∷ []) ((0 ∷ 0 ∷ []) ∷ (0 ∷ 3 ∷ 7 ∷ 8 ∷ 9 ∷ []) ∷ []) conn).0 ≡ none
unfolding get_message read word
split_length = refl

abbrev ping : Message
ping = record {
  mtype = 1;
  version = 1;
  op = 4;
  rend = of_id 4 1;
  periodic_message = true;
  return_rend = no_rendezvous;
}

abbrev blank : ByteBuffer
blank = record {
  num_bytes_allocated = 2048;
  num_bytes_stored = 0;
  cur_index = 0;
  buffer_data = zeros;
}

abbrev every_second : Request
every_second = record {
  message = ping;
  period = record { tv_sec = 1; tv_usec = 0 };
  received_response = false;
  received_stop = false;
  received_ack = false;
  timeout = 30;
  resp = none;
}

abbrev pong : Response
pong = record { message = ping; end_of_message = true }

abbrev wire : List ℕ → List ℕ
wire bs = frame bs ++ (5 ∷ [])

request_over_stream_example :
    (send_message true true true (write_request every_second) blank conn
      ≡ some (true, frame (bytes_request every_second), conn))
    × (mbuf : List ℕ) × (s' : Stream) × (get_message []
          (take 9 (wire (bytes_request every_second))
            ∷ drop 9 (wire (bytes_request every_second))
            ∷ [])
          conn
        ≡ (some mbuf, s', conn))
    × (concat s' ≡ 5 ∷ [])
    × Parses
        (parse_request every_second)
        zeros
        zeros
        mbuf
        (received_request every_second every_second)
unfolding concat bytes_request bytes_message bytes_rendezvous bytes8 bytes16 bytes32 bytes_bool
    bytes_timeval of_id
request_over_stream_example =
    request_over_stream every_second every_second blank zeros zeros conn conn [] (5 ∷ [])
      (take 9 (wire (bytes_request every_second))) (drop 9 (wire (bytes_request every_second)) ∷ [])
      (omega arith) (omega arith) refl (omega arith, (omega arith, tt)) (omega arith) refl

response_over_stream_example :
    (send_message true true true (write_response pong) blank conn
      ≡ some (true, frame (bytes_response pong), conn))
    × (mbuf : List ℕ) × (s' : Stream) × (get_message []
          (take 9 (wire (bytes_response pong)) ∷ drop 9 (wire (bytes_response pong)) ∷ [])
          conn
        ≡ (some mbuf, s', conn))
    × (concat s' ≡ 5 ∷ [])
    × Parses (parse_response pong) zeros zeros mbuf (received_response pong pong)
unfolding concat bytes_response bytes_message bytes_rendezvous bytes8 bytes16 bytes32 bytes_bool
    of_id
response_over_stream_example =
    response_over_stream pong pong blank zeros zeros conn conn [] (5 ∷ [])
      (take 9 (wire (bytes_response pong))) (drop 9 (wire (bytes_response pong)) ∷ []) (omega arith)
      (omega arith) refl (omega arith, (omega arith, tt)) (omega arith) refl

-- Connection 0 is finished and idle, connection 1 is not finished.
abbrev two : Listener
two = record {
  connections = 0 ∷ 1 ∷ [];
  objects = λ p. get_or (record conn { finished = true } ∷ conn ∷ []) p conn;
}

only_idle_deleted : (cleanup two).0.connections ≡ 1 ∷ []
unfolding cleanup
only_idle_deleted = refl

deleted_is_closed : ((cleanup two).0.objects 0).closed ≡ true
unfolding cleanup
deleted_is_closed = refl

abbrev no_classes : Registry
no_classes = record { req_map = λ i. none; resp_map = λ i. none }

abbrev junk : Arrival
junk = record {
  mbuf = zeros;
  address = 3;
  parsed = every_second;
  handled = true;
  rounds = [];
  dropped = false;
}

abbrev start : Dispatcher
start = new_dispatcher (λ i. every_second)

abbrev served : Listener
served = record {
  connections = 7 ∷ [];
  objects = λ p. record (serve no_classes (junk ∷ []) (start, accepted 1 3551 2 4000)).1 {
    finished = true;
  };
}

served_connection_stays_example : elem 7 (cleanup served).0.connections ≡ true
unfolding elem
served_connection_stays_example =
    served_connection_stays no_classes junk [] start 1 3551 2 4000 7 served (omega arith) refl refl
