-- ===== src/Shared/ByteBuffer/Payload.antt =====
-- What a message that is written from the start of its buffer sends.
use onldaemons.Prelude.{
  ℕ, zero, suc, ◌+◌, ◌<◌, ◌≤◌, ◌≡◌, ◌∙◌, ap, refl, List, [], ◌∷◌, some, arith, length,
}
use onldaemons.Shared.ByteBuffer.{ByteBuffer, Buf, load_bytes, payload, reset}
use onldaemons.Shared.ByteBuffer.Emit.{emit}
use onldaemons.Shared.ByteBuffer.Holds.{Holds}
use onldaemons.Shared.ByteBuffer.Growth.{emit_fits}

load_bytes-Holds :
    (m : ℕ → ℕ) (i : ℕ) (bs : List ℕ) → Holds m i bs → load_bytes m i (length bs) ≡ bs
unfolding load_bytes
load_bytes-Holds m i [] h = refl
load_bytes-Holds m i (x ∷ bs) h = cc (h.0, load_bytes-Holds m (i + 1) bs h.1)

-- The writer succeeds from the start of `b`, and `bs` is what is then sent.
abbrev pub Sends : Buf (Unit {0}) → ByteBuffer → List ℕ → Type 0
Sends w b bs = (b' : ByteBuffer) × (w (reset b) ≡ some (tt, b')) × (payload b' ≡ bs)

-- Whatever the buffer held before, exactly the bytes of the value are sent.
pub payload-write :
    (w : Buf (Unit {0})) (bs : List ℕ)
    → w ≡ emit bs
    → (b : ByteBuffer) → 0 < length bs
    → length bs ≤ b.num_bytes_allocated
    → Sends w b bs
unfolding reset payload
payload-write w bs e b pos room =
    let (b', s, g) = emit_fits bs (record b { cur_index = 0 }) (omega arith) in
    (
      b',
      ap (λ m. m (record b { cur_index = 0 })) e ∙ s,
      ap (load_bytes b'.buffer_data 0) (let p = g.stored pos in let q = g.index in omega arith)
          ∙ load_bytes-Holds b'.buffer_data 0 bs g.written,
    )

length-load_bytes : (m : ℕ → ℕ) (i n : ℕ) → length (load_bytes m i n) ≡ n
unfolding load_bytes
length-load_bytes m i zero = refl
length-load_bytes m i (suc n) = omega (arith, length-load_bytes m (i + 1) n)

pub length-payload : (b : ByteBuffer) → length (payload b) ≡ b.num_bytes_stored
unfolding payload
length-payload b = length-load_bytes b.buffer_data 0 b.num_bytes_stored
