-- ===== src/Shared/ByteBuffer/Holds.antt =====
-- What the reading operators of the buffer make of the bytes at the current index.
use onldaemons.Prelude.{
  ℕ, suc, ◌+◌, ◌%◌, ◌^◌, ◌≤◌, ◌<◌, ◌≡◌, ◌∙◌, ap, subst, Bool, true, false, some, List, [], ◌∷◌,
  ◌++◌, arith, length, length-append,
}
use onldaemons.Shared.ByteBuffer.{
  ByteBuffer, Buf, resume, ◌>>=◌, pure, get8, get16, get32, get_bool, get_char, get_timeval,
  Timeval, get_bytes, load_bytes, from_network,
}
use onldaemons.Shared.ByteBuffer.Emit.{bytes8, bytes16, bytes32, bytes_bool, bytes_timeval}

-- The memory `m` has the bytes of the list from index `i` on.
abbrev pub Holds : (ℕ → ℕ) → ℕ → List ℕ → Type 0
Holds m i [] = Unit {0}
Holds m i (x ∷ xs) = (m i ≡ x) × Holds m (i + 1) xs

-- The buffer has the bytes of the list ahead of its index, inside the array.
pub record Ahead (bs : List ℕ) (b : ByteBuffer) : Type 0 where
  pub fits : b.cur_index + length bs ≤ b.num_bytes_allocated
  pub bytes : Holds b.buffer_data b.cur_index bs

abbrev pub skip : ℕ → ByteBuffer → ByteBuffer
skip n b = record b { cur_index = b.cur_index + n }

-- Over the bytes `bs` the reader returns `a` and leaves the index behind them.
pub record Decodes {A : Type 0} (r : Buf A) (bs : List ℕ) (a : A) : Type 0 where
  pub run : (b : ByteBuffer) → Ahead bs b → r b ≡ some (a, skip (length bs) b)

Holds-at : (m : ℕ → ℕ) (i j : ℕ) (xs : List ℕ) → i ≡ j → Holds m i xs → Holds m j xs
Holds-at m i j xs e h = subst (λ k. Holds m k xs) e h

pub Holds-append :
    (m : ℕ → ℕ) (i : ℕ) (xs ys : List ℕ)
    → Holds m i (xs ++ ys)
    → Holds m i xs × Holds m (i + length xs) ys
Holds-append m i [] ys h = (tt, Holds-at m i (i + 0) ys (omega arith) h)
Holds-append m i (x ∷ xs) ys h =
    let r = Holds-append m (i + 1) xs ys h.1 in
    ((h.0, r.0), Holds-at m (i + 1 + length xs) (i + suc (length xs)) ys (omega arith) r.1)

Ahead-append :
    (xs ys : List ℕ) (b : ByteBuffer)
    → Ahead (xs ++ ys) b
    → Ahead xs b × Ahead ys (skip (length xs) b)
Ahead-append xs ys b h =
    let e = length-append xs ys in
    let f = h.fits in
    let r = Holds-append b.buffer_data b.cur_index xs ys h.bytes in
    (record { fits = omega arith; bytes = r.0 }, record { fits = omega arith; bytes = r.1 })

-- Reading in sequence consumes the bytes of both parts.
pub Decodes-bind :
    {A B : Type 0} {m : Buf A} (f : A → Buf B) {xs ys : List ℕ} {a : A} {c : B}
    → Decodes m xs a
    → Decodes (f a) ys c
    → Decodes (m >>= f) (xs ++ ys) c
unfolding ◌>>=◌
Decodes-bind f {xs} {ys} {a} {c} hm hf = record {
  run = λ b h.
      let (hx, hy) = Ahead-append xs ys b h in
      rw (hm.run b hx, resume)
        (hf.run (skip (length xs) b) hy
          ∙ ap (λ k. some (c, record b { cur_index = k })) (omega (arith, length-append xs ys)));
}

-- The last reader of a block is followed by a constructor.
pub Decodes-map :
    {A B : Type 0} {m : Buf A} (f : A → B) {xs : List ℕ} {a : A}
    → Decodes m xs a
    → Decodes (m >>= λ x. pure (f x)) xs (f a)
unfolding ◌>>=◌ pure
Decodes-map f hm = record { run = λ b h. rw (hm.run b h, resume) }

pub Decodes-pure : {A : Type 0} (a : A) → Decodes (pure a) [] a
unfolding pure
Decodes-pure a = record {
  run = λ b h. ap (λ k. some (a, record b { cur_index = k })) (omega arith);
}

pub get8-Decodes : (d : ℕ) → d < 256 → Decodes get8 (bytes8 d) d
unfolding get8 ◌>>=◌ pure get_bytes load_bytes from_network bytes8
get8-Decodes d h = record { run = λ b ahead. ground arith }

pub get16-Decodes : (d : ℕ) → d < 2 ^ 16 → Decodes get16 (bytes16 d) d
unfolding get16 ◌>>=◌ pure get_bytes load_bytes from_network bytes16
get16-Decodes d h = record { run = λ b ahead. ground arith }

pub get32-Decodes : (d : ℕ) → d < 2 ^ 32 → Decodes get32 (bytes32 d) d
unfolding get32 ◌>>=◌ pure get_bytes load_bytes from_network bytes32
get32-Decodes d h = record { run = λ b ahead. ground arith }

pub get_bool-Decodes : (b : Bool) → Decodes get_bool (bytes_bool b) b
unfolding get_bool bytes_bool
get_bool-Decodes true = Decodes-map _ (get16-Decodes 1 (omega arith))
get_bool-Decodes false = Decodes-map _ (get16-Decodes 0 (omega arith))

pub get_char-Decodes : (c : ℕ) → c < 256 → Decodes get_char (bytes8 c) c
unfolding get_char
get_char-Decodes c h = get8-Decodes c h

pub get_timeval-Decodes :
    (tv : Timeval)
    → tv.tv_sec < 2 ^ 32
    → tv.tv_usec < 2 ^ 32
    → Decodes get_timeval (bytes_timeval tv) tv
unfolding get_timeval bytes_timeval
get_timeval-Decodes tv h k =
    let e : tv.tv_sec % 2 ^ 32 ≡ tv.tv_sec = omega arith in
    let f : tv.tv_usec % 2 ^ 32 ≡ tv.tv_usec = omega arith in
    rw (e, f) (Decodes-bind _ (get32-Decodes _ h) (Decodes-map _ (get32-Decodes _ k)))
