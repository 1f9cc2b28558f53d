-- ===== src/Shared/ByteBuffer/Growth.antt =====
-- When a write fits, what it leaves behind, and that a reader placed at its start gets it back.
use onldaemons.Prelude.{
  ℕ, ◌+◌, ◌≤◌, ◌<◌, ◌≡◌, ◌↔◌, refl, ◌∙◌, sym, ap, Bool-cases, inl, inr, none, some, List, [], ◌∷◌,
  arith, length, ltb, lt→ltb, ltb→lt,
}
use onldaemons.Shared.ByteBuffer.{ByteBuffer, Buf}
use onldaemons.Shared.ByteBuffer.Emit.{push, emit}
use onldaemons.Shared.ByteBuffer.Holds.{Holds, Decodes}

emit_step :
    (x : ℕ) (xs : List ℕ) (b : ByteBuffer)
    → b.cur_index < b.num_bytes_allocated
    → emit (x ∷ xs) b ≡ emit xs (push x b)
unfolding emit
emit_step x xs b h = rw (lt→ltb _ _ h)

emit_stop :
    (x : ℕ) (xs : List ℕ) (b : ByteBuffer)
    → b.num_bytes_allocated ≤ b.cur_index
    → emit (x ∷ xs) b ≡ none
unfolding emit
emit_stop x xs b h = ground arith

-- The buffer after `bs` was appended: the bytes lie from the old index on, what was below is kept.
pub record Emitted (bs : List ℕ) (b b' : ByteBuffer) : Type 0 where
  pub allocated : b'.num_bytes_allocated ≡ b.num_bytes_allocated
  pub index : b'.cur_index ≡ b.cur_index + length bs
  pub fits : b'.cur_index ≤ b'.num_bytes_allocated
  pub written : Holds b'.buffer_data b.cur_index bs
  pub stored : 0 < length bs → b'.num_bytes_stored ≡ b'.cur_index
  pub in_step : b.num_bytes_stored ≡ b.cur_index → b'.num_bytes_stored ≡ b'.cur_index
  pub kept : (i : ℕ) → i < b.cur_index → b'.buffer_data i ≡ b.buffer_data i

-- An append succeeds when the bytes fit.
pub emit_fits :
    (bs : List ℕ) (b : ByteBuffer)
    → b.cur_index + length bs ≤ b.num_bytes_allocated
    → (b' : ByteBuffer) × (emit bs b ≡ some (tt, b')) × Emitted bs b b'
emit_fits [] b h = (
  b,
  unfold emit in refl,
  record {
    allocated = refl;
    index = omega arith;
    fits = omega arith;
    written = tt;
    stored = λ h. absurd (omega arith);
    in_step = λ e. e;
    kept = λ i _. refl;
  },
)
emit_fits (x ∷ xs) b h =
    let (b', e, r) = emit_fits xs (push x b) (omega arith) in
    (
      b',
      emit_step x xs b (omega arith) ∙ e,
      record {
        allocated = r.allocated;
        index = let q = r.index in omega arith;
        fits = r.fits;
        written = (r.kept b.cur_index (omega arith) ∙ ground arith, r.written);
        stored = λ _. r.in_step refl;
        in_step = λ _. r.in_step refl;
        kept = λ i l. r.kept i (omega arith) ∙ ground arith;
      },
    )

-- And only then.
pub emit_overruns :
    (bs : List ℕ) (b : ByteBuffer)
    → b.cur_index ≤ b.num_bytes_allocated
    → b.num_bytes_allocated < b.cur_index + length bs
    → emit bs b ≡ none
emit_overruns [] b h k = absurd (omega arith)
emit_overruns (x ∷ xs) b h k = elim (Bool-cases (ltb b.cur_index b.num_bytes_allocated)) [
  | inl e ↦
      emit_step x xs b (ltb→lt _ _ e) ∙ emit_overruns xs (push x b) (ground arith) (omega arith)
  | inr e ↦ emit_stop x xs b (ground arith)
]

-- The room for the bytes ahead of the index.
abbrev pub Fits : List ℕ → ByteBuffer → Type 0
Fits bs b = b.cur_index + length bs ≤ b.num_bytes_allocated

-- The writer succeeds on `b`, and the reader, set back to where it began, returns `a` and ends
-- where it ended.
abbrev pub Restores : {A : Type 0} → Buf (Unit {0}) → Buf A → ByteBuffer → A → Type 0
Restores w r b a =
    (b' : ByteBuffer) × (w b ≡ some (tt, b'))
    × (r (record b' { cur_index = b.cur_index }) ≡ some (a, b'))

-- A reader set to where a writer of the same bytes began returns the value and ends where it ended.
pub read-write :
    {A : Type 0} (w : Buf (Unit {0})) (r : Buf A) (bs : List ℕ) (a : A)
    → w ≡ emit bs
    → Decodes r bs a
    → (b : ByteBuffer) → Fits bs b
    → Restores w r b a
read-write w r bs a e d b h =
    let (b', s, g) = emit_fits bs b h in
    (
      b',
      ap (λ m. m b) e ∙ s,
      d.run (record b' { cur_index = b.cur_index })
            (record { fits = let p = g.fits in let q = g.index in omega arith; bytes = g.written })
          ∙ ap (λ k. some (a, record b' { cur_index = k })) (sym g.index),
    )

-- A writer of `bs` leaves the array exactly when the bytes do not fit.
pub overrun_iff :
    (w : Buf (Unit {0})) (bs : List ℕ)
    → w ≡ emit bs
    → (b : ByteBuffer) → b.cur_index ≤ b.num_bytes_allocated
    → (w b ≡ none) ↔ (b.num_bytes_allocated < b.cur_index + length bs)
overrun_iff w bs e b inside =
    elim (Bool-cases (ltb b.num_bytes_allocated (b.cur_index + length bs))) [
      | inl over ↦ (λ _. ltb→lt _ _ over, λ h. ap (λ m. m b) e ∙ emit_overruns bs b inside h)
      | inr room ↦
          let (b', s, g) = emit_fits bs b (ground arith) in
          let ok = ap (λ m. m b) e ∙ s in (λ fault. cc, λ h. absurd (ground arith))
    ]
