-- ===== src/Shared/Message/Delivery.antt =====
-- Requests, responses and periodic messages arrive as they were sent.
use onldaemons.Prelude.{
  ℕ, ◌≤◌, ◌≡◌, refl, Bool, true, false, List, [], ◌++◌, arith, length, length-append, if◌then◌else◌,
}
use onldaemons.Shared.ByteBuffer.{ByteBuffer, Timeval}
use onldaemons.Shared.ByteBuffer.Emit.{bytes8, bytes16, bytes32, bytes_bool, bytes_timeval}
use onldaemons.Shared.ByteBuffer.Octets.{
  Octets, Octets-append, bytes8-Octets, bytes16-Octets, bytes32-Octets, bytes_bool-Octets,
  bytes_timeval-Octets,
}
use onldaemons.Shared.Rendezvous.{Rendezvous, bytes_rendezvous}
use onldaemons.Shared.Message.{
  Message, Request, Response, parse_request, write_request, parse_response, write_response,
  parse_periodic, write_periodic,
}
use onldaemons.Shared.Message.Codec.{
  IsMessage, IsRequest, bytes_message, bytes_request, bytes_response, bytes_periodic,
  received_request, received_response, write_request-emit, parse_request-Decodes,
  write_response-emit, parse_response-Decodes, write_periodic-emit, parse_periodic-Decodes,
}
use onldaemons.Shared.Message.Wire.{Delivers, deliver}

length-bytes_rendezvous : (r : Rendezvous) → length (bytes_rendezvous r) ≡ 28
unfolding bytes_rendezvous bytes8 bytes16 bytes32
length-bytes_rendezvous r = refl

length-bytes_bool : (b : Bool) → length (bytes_bool b) ≡ 2
unfolding bytes_bool bytes16
length-bytes_bool true = refl
length-bytes_bool false = refl

length-bytes_timeval : (tv : Timeval) → length (bytes_timeval tv) ≡ 8
unfolding bytes_timeval bytes32
length-bytes_timeval tv = refl

-- The header takes 34 bytes.
length-bytes_message : (m : Message) → length (bytes_message m) ≡ 34
unfolding bytes_message bytes8 bytes16
length-bytes_message m = omega (
  arith,
  length-append (bytes_rendezvous m.rend) (bytes_bool m.periodic_message),
  length-bytes_rendezvous m.rend,
  length-bytes_bool m.periodic_message,
)

length-optional-le : (t : Bool) (xs : List ℕ) → length (if t then xs else []) ≤ length xs
length-optional-le true xs = omega arith
length-optional-le false xs = omega arith

pub length-bytes_request :
    (r : Request) → (34 ≤ length (bytes_request r)) × (length (bytes_request r) ≤ 42)
unfolding bytes_request
length-bytes_request r =
    let period = if r.message.periodic_message then bytes_timeval r.period else [] in
    omega (
      arith,
      length-bytes_message r.message,
      length-append (bytes_message r.message) period,
      length-optional-le r.message.periodic_message (bytes_timeval r.period),
      length-bytes_timeval r.period,
    )

pub length-bytes_response :
    (r : Response) → (34 ≤ length (bytes_response r)) × (length (bytes_response r) ≤ 64)
unfolding bytes_response
length-bytes_response r =
    let m = r.message in
    let marker = if m.periodic_message then bytes_rendezvous m.return_rend else [] in
    omega (
      arith,
      length-bytes_message m,
      length-append (bytes_message m) (marker ++ bytes_bool r.end_of_message),
      length-append marker (bytes_bool r.end_of_message),
      length-optional-le m.periodic_message (bytes_rendezvous m.return_rend),
      length-bytes_rendezvous m.return_rend,
      length-bytes_bool r.end_of_message,
    )

length-bytes_periodic : (m : Message) → length (bytes_periodic m) ≡ 60
unfolding bytes_periodic bytes8 bytes16
length-bytes_periodic m = omega (
  arith,
  length-append (bytes_rendezvous m.rend) (bytes_rendezvous m.return_rend),
  length-bytes_rendezvous m.rend,
  length-bytes_rendezvous m.return_rend,
)

pub optional-Octets : (t : Bool) (xs : List ℕ) → Octets xs → Octets (if t then xs else [])
optional-Octets true xs h = h
optional-Octets false xs h = tt

pub ruleset octets = (
  Octets-append, bytes8-Octets, bytes16-Octets, bytes32-Octets, bytes_bool-Octets,
  bytes_timeval-Octets, optional-Octets,
)

bytes_rendezvous-Octets : (r : Rendezvous) → Octets (bytes_rendezvous r)
unfolding bytes_rendezvous
bytes_rendezvous-Octets r = search octets depth 20

pub bytes_message-Octets : (m : Message) → Octets (bytes_message m)
unfolding bytes_message
bytes_message-Octets m = search (octets, bytes_rendezvous-Octets) depth 12

-- A request with fields in the range of their C++ types, written into a buffer of at least the
-- default size, arrives: the object parsed from the bytes sent has its header, and its period when it
-- is periodic.
pub request_delivered :
    (old r : Request)
    → IsRequest r
    → (b : ByteBuffer) (fresh grown : ℕ → ℕ) → 2048 ≤ b.num_bytes_allocated
    → Delivers (write_request r) (parse_request old) b fresh grown (received_request old r)
request_delivered old r w b fresh grown room =
    let size = length-bytes_request r in
    deliver _ _ _ _ (write_request-emit r) (parse_request-Decodes old r w)
      (unfold bytes_request in search (octets, bytes_message-Octets)) (omega arith) b fresh grown
      (omega arith)

-- A response with fields in the range of their C++ types, written into a buffer of at least the
-- default size, arrives: the object parsed from the bytes sent has its header and its end mark, and
-- its return marker when it is periodic.
pub response_delivered :
    (old r : Response)
    → IsMessage r.message
    → (b : ByteBuffer) (fresh grown : ℕ → ℕ) → 2048 ≤ b.num_bytes_allocated
    → Delivers (write_response r) (parse_response old) b fresh grown (received_response old r)
response_delivered old r w b fresh grown room =
    let size = length-bytes_response r in
    deliver _ _ _ _ (write_response-emit r) (parse_response-Decodes old r w)
      (unfold bytes_response in search (octets, bytes_message-Octets, bytes_rendezvous-Octets))
      (omega arith) b fresh grown (omega arith)

-- A periodic message with fields in the range of their C++ types, written into a buffer of at least
-- the default size, arrives with both markers; the flag of the receiving object stays as it was.
pub periodic_delivered :
    (old m : Message)
    → IsMessage m
    → (b : ByteBuffer) (fresh grown : ℕ → ℕ) → 2048 ≤ b.num_bytes_allocated
    → Delivers
        (write_periodic m)
        (parse_periodic old)
        b
        fresh
        grown
        (record m { periodic_message = old.periodic_message })
periodic_delivered old m w b fresh grown room =
    let size = length-bytes_periodic m in
    deliver _ _ _ _ (write_periodic-emit m) (parse_periodic-Decodes old m w)
      (unfold bytes_periodic in search (octets, bytes_rendezvous-Octets)) (omega arith) b fresh
      grown (omega arith)
