-- ===== src/Shared/Connection/EndToEnd.antt =====
-- From the object that one daemon sends to the object that another daemon gets, over a stream.
use onldaemons.Prelude.{
  ℕ, ◌<◌, ◌≤◌, ◌≡◌, ◌∙◌, ap, sym, refl, true, false, some, List, ◌∷◌, ◌++◌, ◌==◌ as nat_eq, length,
  arith,
}
use onldaemons.Shared.ByteBuffer.{ByteBuffer, Buf}
use onldaemons.Shared.ByteBuffer.Emit.{bytes32, emit}
use onldaemons.Shared.ByteBuffer.Payload.{payload-write, length-payload}
use onldaemons.Shared.Message.{
  Request, Response, receive_buffer, write_request, parse_request, write_response, parse_response,
}
use onldaemons.Shared.Message.Codec.{
  IsMessage, IsRequest, bytes_request, received_request, write_request-emit, bytes_response,
  received_response, write_response-emit,
}
use onldaemons.Shared.Message.Wire.{Delivers}
use onldaemons.Shared.Message.Delivery.{
  request_delivered, length-bytes_request, response_delivered, length-bytes_response,
}
use onldaemons.Shared.Connection.{Stream, Connection, get_message, sent_bytes, send_message}
use onldaemons.Shared.Connection.Reads.{concat, Alive}
use onldaemons.Shared.Connection.Framing.{get_message_framed}

-- The bytes on the wire.
abbrev pub frame : List ℕ → List ℕ
frame bs = bytes32 (length bs) ++ bs

send_message-frame :
    (w : Buf (Unit {0})) (bs : List ℕ) (b : ByteBuffer) (c : Connection)
    → w ≡ emit bs
    → 0 < length bs
    → length bs ≤ b.num_bytes_allocated
    → c.closed ≡ false
    → send_message true true true w b c ≡ some (true, frame bs, c)
unfolding send_message sent_bytes
send_message-frame w bs b c e pos room is_open =
    let (b', sent, same) = payload-write w bs e b pos room in
    let size : b'.num_bytes_stored ≡ length bs = sym (length-payload b') ∙ ap length same in
    let some_bytes : nat_eq (length bs) 0 ≡ false = ground arith in
    rw (is_open, sent, size, some_bytes, same) refl

-- The received bytes are made into an object, and parsing it returns `a`.
abbrev pub Parses : {A : Type 0} → Buf A → (ℕ → ℕ) → (ℕ → ℕ) → List ℕ → A → Type 0
Parses parse fresh grown bs a =
    (m m' : ByteBuffer) × (receive_buffer fresh grown bs ≡ some m) × (parse m ≡ some (a, m'))

Delivers-Parses :
    {A : Type 0} (w : Buf (Unit {0})) (parse : Buf A) (bs : List ℕ) (a : A) (b : ByteBuffer)
    (fresh grown : ℕ → ℕ)
    → w ≡ emit bs
    → 0 < length bs
    → length bs ≤ b.num_bytes_allocated
    → Delivers w parse b fresh grown a
    → Parses parse fresh grown bs a
Delivers-Parses w parse bs a b fresh grown e pos room (b', m, m', sent, made, parsed) =
    let (b'', sent', same) = payload-write w bs e b pos room in
    let one : b' ≡ b'' = cc (sent, sent') in (m, m', rw (sym same, sym one) made, parsed)

-- A request with fields in the range of their C++ types is written into a buffer of at least the
-- default size and sent over an open connection by two calls of send that succeed. The send reports
-- success. However the frame, and the bytes behind it, come in by reads at the other end, if the four
-- bytes of the length come in by one read, then get_message returns a message, the object that is made
-- from it parses to the request's header and period, and the bytes behind it stay on the stream.
pub request_over_stream :
    (old r : Request) (b : ByteBuffer) (fresh grown : ℕ → ℕ) (c c' : Connection)
    (junk rest first : List ℕ) (s : Stream)
    → IsRequest r
    → 2048 ≤ b.num_bytes_allocated
    → c.closed ≡ false
    → Alive (first ∷ s)
    → 4 ≤ length first
    → concat (first ∷ s) ≡ bytes32 (length (bytes_request r)) ++ (bytes_request r ++ rest)
    → (send_message true true true (write_request r) b c ≡ some (true, frame (bytes_request r), c))
      × (mbuf : List ℕ) × (s' : Stream) × (get_message junk (first ∷ s) c' ≡ (some mbuf, s', c'))
      × (concat s' ≡ rest)
      × Parses (parse_request old) fresh grown mbuf (received_request old r)
request_over_stream old r b fresh grown c c' junk rest first s w room is_open alive whole e =
    let size = length-bytes_request r in
    let (s', got, left, _) =
      get_message_framed junk (bytes_request r) rest first s c' (omega arith) (omega arith) alive
        whole e in
    (
      send_message-frame _ _ b c (write_request-emit r) (omega arith) (omega arith) is_open,
      bytes_request r,
      s',
      got,
      left,
      Delivers-Parses _ _ _ _ b fresh grown (write_request-emit r) (omega arith) (omega arith)
          (request_delivered old r w b fresh grown room),
    )

-- The same for a response: its end mark comes along, and its return marker when it is periodic.
pub response_over_stream :
    (old r : Response) (b : ByteBuffer) (fresh grown : ℕ → ℕ) (c c' : Connection)
    (junk rest first : List ℕ) (s : Stream)
    → IsMessage r.message
    → 2048 ≤ b.num_bytes_allocated
    → c.closed ≡ false
    → Alive (first ∷ s)
    → 4 ≤ length first
    → concat (first ∷ s) ≡ bytes32 (length (bytes_response r)) ++ (bytes_response r ++ rest)
    → (send_message true true true (write_response r) b c
        ≡ some (true, frame (bytes_response r), c))
      × (mbuf : List ℕ) × (s' : Stream) × (get_message junk (first ∷ s) c' ≡ (some mbuf, s', c'))
      × (concat s' ≡ rest)
      × Parses (parse_response old) fresh grown mbuf (received_response old r)
response_over_stream old r b fresh grown c c' junk rest first s w room is_open alive whole e =
    let size = length-bytes_response r in
    let (s', got, left, _) =
      get_message_framed junk (bytes_response r) rest first s c' (omega arith) (omega arith) alive
        whole e in
    (
      send_message-frame _ _ b c (write_response-emit r) (omega arith) (omega arith) is_open,
      bytes_response r,
      s',
      got,
      left,
      Delivers-Parses _ _ _ _ b fresh grown (write_response-emit r) (omega arith) (omega arith)
          (response_delivered old r w b fresh grown room),
    )
