-- ===== src/Shared/Message/Wire.antt =====
-- From the object that is sent to the object that is received.
use onldaemons.Prelude.{ℕ, ◌<◌, ◌≤◌, ◌≡◌, ◌∙◌, ap, sym, subst, some, List, [], ◌∷◌, arith, length}
use onldaemons.Shared.ByteBuffer.{ByteBuffer, Buf, reset, payload}
use onldaemons.Shared.ByteBuffer.Emit.{emit, emit-append, emit-nil, bytes8, put8-emit}
use onldaemons.Shared.ByteBuffer.Holds.{Ahead, Holds, Decodes, skip}
use onldaemons.Shared.ByteBuffer.Growth.{emit_fits}
use onldaemons.Shared.ByteBuffer.Octets.{Octets}
use onldaemons.Shared.ByteBuffer.Payload.{payload-write}
use onldaemons.Shared.Message.{fill, sized, rewound, receive_buffer}

fill-emit : (xs : List ℕ) → Octets xs → fill xs ≡ emit xs
unfolding fill bytes8
fill-emit [] h = emit-nil
fill-emit (x ∷ xs) h =
    simp (put8-emit x, fill-emit xs h.1, emit-append)
      (ap (λ (y : ℕ). emit (y ∷ xs)) (let k = h.0 in omega arith))

sized_room :
    (fresh grown : ℕ → ℕ) (size : ℕ)
    → (0 ≡ (sized fresh grown size).cur_index)
      × (size ≤ (sized fresh grown size).num_bytes_allocated)
unfolding sized
sized_room fresh grown size = ground arith

-- The receiving object's buffer has the bytes received ahead of its index, at its start.
receive_buffer_lem :
    (fresh grown : ℕ → ℕ) (mbuf : List ℕ)
    → Octets mbuf
    → (c : ByteBuffer) × (receive_buffer fresh grown mbuf ≡ some c) × Ahead mbuf c
unfolding receive_buffer rewound reset
receive_buffer_lem fresh grown mbuf h =
    let buf = sized fresh grown (length mbuf) in
    let room = sized_room fresh grown (length mbuf) in
    let (b', s, g) = emit_fits mbuf buf (omega (arith, room.0, room.1)) in
    (
      record b' { cur_index = 0 },
      ap rewound (ap (λ m. m buf) (fill-emit mbuf h) ∙ s),
      record {
        fits = let p = g.fits in let q = g.index in omega arith;
        bytes = subst (λ i. Holds b'.buffer_data i mbuf) (sym room.0) g.written;
      },
    )

-- The writer `w` succeeds from the start of the sender's buffer `b`, a message object is made from
-- the bytes sent, and parsing that object returns `a`.
abbrev pub Delivers :
    {A : Type 0} → Buf (Unit {0}) → Buf A → ByteBuffer → (ℕ → ℕ) → (ℕ → ℕ) → A → Type 0
Delivers w parse b fresh grown a =
    (b' : ByteBuffer) × (c c' : ByteBuffer) × (w (reset b) ≡ some (tt, b'))
    × (receive_buffer fresh grown (payload b') ≡ some c)
    × (parse c ≡ some (a, c'))

pub deliver :
    {A : Type 0} (w : Buf (Unit {0})) (parse : Buf A) (bs : List ℕ) (a : A)
    → w ≡ emit bs
    → Decodes parse bs a
    → Octets bs
    → 0 < length bs
    → (b : ByteBuffer) (fresh grown : ℕ → ℕ) → length bs ≤ b.num_bytes_allocated
    → Delivers w parse b fresh grown a
deliver w parse bs a e d octets pos b fresh grown room =
    let (b', sent, same) = payload-write w bs e b pos room in
    let (c, made, ahead) = receive_buffer_lem fresh grown bs octets in
    (b', c, skip (length bs) c, sent, rw same made, d.run c ahead)
