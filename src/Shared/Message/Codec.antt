-- ===== src/Shared/Message/Codec.antt =====
-- The bytes of each kind of message, and that parsing makes the message of them.
use onldaemons.Prelude.{
  ℕ, ◌^◌, ◌<◌, ◌≡◌, Bool, true, false, Bool-cases, inl, inr, List, [], ◌++◌, if◌then◌else◌,
}
use onldaemons.Shared.ByteBuffer.{pure, ◌>>=◌}
use onldaemons.Shared.ByteBuffer.Emit.{
  emit, emit-append, emit-nil, bytes8, bytes16, bytes_bool, bytes_timeval, put8-emit, put16-emit,
  put_bool-emit, put_timeval-emit,
}
use onldaemons.Shared.ByteBuffer.Holds.{
  Decodes, Decodes-bind, Decodes-map, Decodes-pure, get8-Decodes, get16-Decodes, get_bool-Decodes,
  get_timeval-Decodes,
}
use onldaemons.Shared.Rendezvous.{
  IsRendezvous, get_rendezvous, bytes_rendezvous, put_rendezvous-emit, get_rendezvous-Decodes,
}
use onldaemons.Shared.Message.{
  Message, Request, Response, parse_message, write_message, parse_period, parse_request,
  write_request, parse_return, write_return, parse_response, write_response, parse_periodic,
  write_periodic,
}

pub record IsMessage (m : Message) : Type 0 where
  pub mtype : m.mtype < 2 ^ 16
  pub version : m.version < 256
  pub op : m.op < 256
  pub rend : IsRendezvous m.rend
  pub return_rend : IsRendezvous m.return_rend

unfoldable pub bytes_message : Message → List ℕ
bytes_message m =
    bytes16 m.mtype
    ++ (bytes8 m.version
        ++ (bytes8 m.op ++ (bytes_rendezvous m.rend ++ bytes_bool m.periodic_message)))

pub write_message-emit : (m : Message) → write_message m ≡ emit (bytes_message m)
unfolding write_message bytes_message
write_message-emit m = simp (put16-emit, put8-emit, put_rendezvous-emit, put_bool-emit, emit-append)

-- `m` read into the object `old`
abbrev pub onto : Message → Message → Message
onto old m = record m { return_rend = old.return_rend }

pub parse_message-Decodes :
    (old m : Message) → IsMessage m → Decodes (parse_message old) (bytes_message m) (onto old m)
unfolding parse_message bytes_message
parse_message-Decodes old m w = Decodes-bind _ (get16-Decodes _ w.mtype) (
    Decodes-bind _ (get8-Decodes _ w.version) (
      Decodes-bind _ (get8-Decodes _ w.op)
        (Decodes-bind _ (get_rendezvous-Decodes _ w.rend) (Decodes-map _ (get_bool-Decodes _)))))

pub record IsRequest (r : Request) : Type 0 where
  pub message : IsMessage r.message
  pub tv_sec : r.period.tv_sec < 2 ^ 32
  pub tv_usec : r.period.tv_usec < 2 ^ 32

unfoldable pub bytes_request : Request → List ℕ
bytes_request r =
    bytes_message r.message ++ (if r.message.periodic_message then bytes_timeval r.period else [])

pub write_request-emit : (r : Request) → write_request r ≡ emit (bytes_request r)
unfolding write_request bytes_request
write_request-emit r = elim (Bool-cases r.message.periodic_message) [
  | inl e ↦ rw e (simp (write_message-emit, put_timeval-emit, emit-append))
  | inr e ↦ rw e (simp (write_message-emit, emit-nil, emit-append))
]

-- The request `r` read into `old`: its header, and its period if it is periodic.
unfoldable pub received_request : Request → Request → Request
received_request old r = record old {
  message = onto old.message r.message;
  period = if r.message.periodic_message then r.period else old.period;
}

pub parse_request-Decodes :
    (old r : Request)
    → IsRequest r
    → Decodes (parse_request old) (bytes_request r) (received_request old r)
unfolding parse_request parse_period bytes_request received_request
parse_request-Decodes old r w =
    Decodes-bind _ (parse_message-Decodes old.message r.message w.message)
      (elim (Bool-cases r.message.periodic_message) [
        | inl e ↦ rw e (Decodes-map _ (get_timeval-Decodes _ w.tv_sec w.tv_usec))
        | inr e ↦ rw e (Decodes-pure _)
      ])

unfoldable pub bytes_response : Response → List ℕ
bytes_response r =
    bytes_message r.message
    ++ ((if r.message.periodic_message then bytes_rendezvous r.message.return_rend else [])
        ++ bytes_bool r.end_of_message)

write_return-emit :
    (m : Message)
    → write_return m ≡ emit (if m.periodic_message then bytes_rendezvous m.return_rend else [])
unfolding write_return
write_return-emit m = elim (Bool-cases m.periodic_message) [
  | inl e ↦ rw e (put_rendezvous-emit _)
  | inr e ↦ rw e emit-nil
]

pub write_response-emit : (r : Response) → write_response r ≡ emit (bytes_response r)
unfolding write_response bytes_response
write_response-emit r = simp (write_message-emit, write_return-emit, put_bool-emit, emit-append)

-- The response `r` read into `old`: the return marker comes with periodic requests only.
unfoldable pub received_response : Response → Response → Response
received_response old r = record {
  message = if r.message.periodic_message then r.message else onto old.message r.message;
  end_of_message = r.end_of_message;
}

parse_return-Decodes :
    (old m : Message)
    → IsMessage m
    → Decodes
        (parse_return (onto old m))
        (if m.periodic_message then bytes_rendezvous m.return_rend else [])
        (if m.periodic_message then m else onto old m)
unfolding parse_return
parse_return-Decodes old m w = split m.periodic_message
  where
    split :
        (t : Bool)
        → Decodes
            (if t
              then (do rend ← get_rendezvous; pure (record (onto old m) { return_rend = rend }))
              else pure (onto old m))
            (if t then bytes_rendezvous m.return_rend else [])
            (if t then m else onto old m)
    split true = Decodes-map _ (get_rendezvous-Decodes _ w.return_rend)
    split false = Decodes-pure _

pub parse_response-Decodes :
    (old r : Response)
    → IsMessage r.message
    → Decodes (parse_response old) (bytes_response r) (received_response old r)
unfolding parse_response bytes_response received_response
parse_response-Decodes old r w = Decodes-bind _ (parse_message-Decodes old.message r.message w) (
    Decodes-bind _ (parse_return-Decodes old.message r.message w)
      (Decodes-map _ (get_bool-Decodes _)))

unfoldable pub bytes_periodic : Message → List ℕ
bytes_periodic m =
    bytes16 m.mtype
    ++ (bytes8 m.version
        ++ (bytes8 m.op ++ (bytes_rendezvous m.rend ++ bytes_rendezvous m.return_rend)))

pub write_periodic-emit : (m : Message) → write_periodic m ≡ emit (bytes_periodic m)
unfolding write_periodic bytes_periodic
write_periodic-emit m = simp (put16-emit, put8-emit, put_rendezvous-emit, emit-append)

pub parse_periodic-Decodes :
    (old m : Message)
    → IsMessage m
    → Decodes
        (parse_periodic old)
        (bytes_periodic m)
        (record m { periodic_message = old.periodic_message })
unfolding parse_periodic bytes_periodic
parse_periodic-Decodes old m w = Decodes-bind _ (get16-Decodes _ w.mtype) (
    Decodes-bind _ (get8-Decodes _ w.version) (
      Decodes-bind _ (get8-Decodes _ w.op) (
        Decodes-bind _ (get_rendezvous-Decodes _ w.rend)
          (Decodes-map _ (get_rendezvous-Decodes _ w.return_rend)))))
