-- ===== src/Shared/Message.antt =====
-- shared/message.h and shared/message.cc: the header of every message, and what requests, responses
-- and periodic messages add to it. A class is a record; `parse` and `write` are steps of its buffer.
pub mod Codec
pub mod Wire
pub mod Delivery
use onldaemons.Prelude.{
  ℕ, zero, suc, Bool, true, false, Option, none, some, List, [], ◌∷◌, leb, ◌==◌, if◌then◌else◌,
  length,
}
use onldaemons.Shared.ByteBuffer.{
  ByteBuffer, Buf, pure, ◌>>=◌, ◌>>◌, resume, Timeval, new_buffer, reset, resize, put8, put16,
  put_bool, put_timeval, get8, get16, get_bool, get_timeval,
}
use onldaemons.Shared.Rendezvous.{Rendezvous, put_rendezvous, get_rendezvous}

abbrev pub nccp_message_request : ℕ
nccp_message_request = 1

abbrev pub nccp_message_response : ℕ
nccp_message_response = 2

abbrev pub nccp_message_periodic : ℕ
nccp_message_periodic = 3

abbrev pub nccp_operation_stop_periodic : ℕ
nccp_operation_stop_periodic = 33

abbrev pub nccp_operation_ack_periodic : ℕ
nccp_operation_ack_periodic = 34

-- The data members of class message, its buffer and its connection apart.
pub record Message : Type 0 where
  pub mtype : ℕ
  pub version : ℕ
  pub op : ℕ
  pub rend : Rendezvous
  pub periodic_message : Bool
  pub return_rend : Rendezvous

-- for(z = 0; z < size; ++z) buf << mbuf[z]
fill : List ℕ → Buf (Unit {0})
fill [] = pure tt
fill (x ∷ xs) = do put8 x; fill xs

sized : (ℕ → ℕ) → (ℕ → ℕ) → ℕ → ByteBuffer
unfolding new_buffer resize
sized fresh grown size =
    let buf = new_buffer fresh in
    if leb buf.num_bytes_allocated size then resize grown size buf else buf

rewound : Option (Unit {0} × ByteBuffer) → Option ByteBuffer
unfolding reset
rewound none = none
rewound (some (_, b)) = some (reset b)

-- message(mbuf, size): a buffer that holds the bytes received, its index at their start. `fresh` and
-- `grown` are what `new` finds in the arrays it allocates.
pub receive_buffer : (ℕ → ℕ) → (ℕ → ℕ) → List ℕ → Option ByteBuffer
unfolding fill sized rewound
receive_buffer fresh grown mbuf = rewound (fill mbuf (sized fresh grown (length mbuf)))

-- message::parse, into an object that exists
pub parse_message : Message → Buf Message
parse_message m = do
  mtype ← get16
  version ← get8
  op ← get8
  rend ← get_rendezvous
  periodic_message ← get_bool
  pure (record {
    mtype = mtype;
    version = version;
    op = op;
    rend = rend;
    periodic_message = periodic_message;
    return_rend = m.return_rend;
  })

pub write_message : Message → Buf (Unit {0})
write_message m = do
  put16 m.mtype
  put8 m.version
  put8 m.op
  put_rendezvous m.rend
  put_bool m.periodic_message

-- `resp` is the response object that came in, named by its address.
pub record Request : Type 0 where
  pub message : Message
  pub period : Timeval
  pub received_response : Bool
  pub received_stop : Bool
  pub received_ack : Bool
  pub timeout : ℕ
  pub resp : Option ℕ

-- request::parse; the period is there if the header says so.
parse_period : Request → Buf Request
parse_period r =
    if r.message.periodic_message
    then (do period ← get_timeval; pure (record r { period = period }))
    else pure r

pub parse_request : Request → Buf Request
unfolding parse_period
parse_request r = do m ← parse_message r.message; parse_period (record r { message = m })

pub write_request : Request → Buf (Unit {0})
write_request r = do
  write_message r.message
  if r.message.periodic_message then put_timeval r.period else pure tt

-- request::request_rendezvous(response): the response is kept for the thread that waits.
unfoldable pub note_response : ℕ → Request → Request
note_response res r = record r { resp = some res; received_response = true }

-- request::request_rendezvous(periodic): what a periodic message changes in its request.
unfoldable pub note_periodic : ℕ → Request → Request
note_periodic op r =
    if op == nccp_operation_stop_periodic
    then record r { received_stop = true }
    else if op == nccp_operation_ack_periodic
    then record r { received_ack = true }
    else r

unfoldable pub prepare_for_periodic : Request → Request
prepare_for_periodic r = record r { received_stop = false; received_ack = false }

pub record Response : Type 0 where
  pub message : Message
  pub end_of_message : Bool

-- response(r)
pub new_response : Request → Response
new_response r = record {
  message = record {
    mtype = nccp_message_response;
    version = r.message.version;
    op = r.message.op;
    rend = r.message.rend;
    periodic_message = r.message.periodic_message;
    return_rend = r.message.return_rend;
  };
  end_of_message = true;
}

parse_return : Message → Buf Message
parse_return m =
    if m.periodic_message
    then (do rend ← get_rendezvous; pure (record m { return_rend = rend }))
    else pure m

pub parse_response : Response → Buf Response
unfolding parse_return
parse_response r = do
  m ← parse_message r.message
  m' ← parse_return m
  end_of_message ← get_bool
  pure (record { message = m'; end_of_message = end_of_message })

write_return : Message → Buf (Unit {0})
write_return m = if m.periodic_message then put_rendezvous m.return_rend else pure tt

pub write_response : Response → Buf (Unit {0})
unfolding write_return
write_response r = do write_message r.message; write_return r.message; put_bool r.end_of_message

-- A periodic message always carries the return marker, and no flag.
pub parse_periodic : Message → Buf Message
parse_periodic m = do
  mtype ← get16
  version ← get8
  op ← get8
  rend ← get_rendezvous
  return_rend ← get_rendezvous
  pure (record m {
    mtype = mtype;
    version = version;
    op = op;
    rend = rend;
    return_rend = return_rend;
  })

pub write_periodic : Message → Buf (Unit {0})
write_periodic m = do
  put16 m.mtype
  put8 m.version
  put8 m.op
  put_rendezvous m.rend
  put_rendezvous m.return_rend
