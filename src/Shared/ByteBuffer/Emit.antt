-- ===== src/Shared/ByteBuffer/Emit.antt =====
-- What the writing operators of the buffer put into it: `emit bs` appends the bytes `bs` one by one,
-- and every writer of shared/ is `emit` of the bytes of its value.
use onldaemons.Prelude.{
  ℕ, ◌+◌, ◌/◌, ◌%◌, ◌^◌, ◌≡◌, refl, fun_ext, Bool, true, false, none, some, List, [], ◌∷◌, ◌++◌,
  arith, ltb, if◌then◌else◌,
}
use onldaemons.Shared.ByteBuffer.{
  ByteBuffer, Buf, pure, resume, ◌>>=◌, ◌>>◌, update, store_bytes, put_bytes, put8, put16, put32,
  put_bool, put_char, put_timeval, Timeval,
}

-- One byte at the current index.
abbrev pub push : ℕ → ByteBuffer → ByteBuffer
push x b = record b {
  num_bytes_stored = b.cur_index + 1;
  cur_index = b.cur_index + 1;
  buffer_data = update b.buffer_data b.cur_index x;
}

unfoldable pub emit : List ℕ → Buf (Unit {0})
emit [] b = some (tt, b)
emit (x ∷ xs) b =
    let rest = emit xs (push x b) in if ltb b.cur_index b.num_bytes_allocated then rest else none

emit-append_at : (xs ys : List ℕ) (b : ByteBuffer) → (emit xs >> emit ys) b ≡ emit (xs ++ ys) b
unfolding emit ◌>>=◌
emit-append_at [] ys b = refl
emit-append_at (x ∷ xs) ys b =
    split (ltb b.cur_index b.num_bytes_allocated) (emit-append_at xs ys (push x b))
  where
    split :
        (t : Bool)
        → resume (λ _. emit ys) (emit xs (push x b)) ≡ emit (xs ++ ys) (push x b)
        → resume (λ _. emit ys) (if t then emit xs (push x b) else none)
          ≡ (if t then emit (xs ++ ys) (push x b) else none)
    split true ih = ih
    split false ih = refl

-- Writing in two parts is writing the bytes of both.
pub emit-append : (xs ys : List ℕ) → (emit xs >> emit ys) ≡ emit (xs ++ ys)
emit-append xs ys = fun_ext (emit-append_at xs ys)

pub emit-nil : pure tt ≡ emit []
unfolding emit pure
emit-nil = refl

unfoldable pub bytes8 : ℕ → List ℕ
bytes8 d = d % 256 ∷ []

unfoldable pub bytes16 : ℕ → List ℕ
bytes16 d = d / 256 % 256 ∷ d % 256 ∷ []

unfoldable pub bytes32 : ℕ → List ℕ
bytes32 d = d / 2 ^ 24 % 256 ∷ d / 2 ^ 16 % 256 ∷ d / 256 % 256 ∷ d % 256 ∷ []

unfoldable pub bytes_bool : Bool → List ℕ
bytes_bool b = if b then bytes16 1 else bytes16 0

unfoldable pub bytes_timeval : Timeval → List ℕ
bytes_timeval tv = bytes32 (tv.tv_sec % 2 ^ 32) ++ bytes32 (tv.tv_usec % 2 ^ 32)

pub put8-emit : (d : ℕ) → put8 d ≡ emit (bytes8 d)
unfolding put8 put_bytes emit store_bytes bytes8
put8-emit d = fun_ext λ b. ground arith

pub put16-emit : (d : ℕ) → put16 d ≡ emit (bytes16 d)
unfolding put16 put_bytes emit store_bytes bytes16
put16-emit d = fun_ext λ b. ground arith

pub put32-emit : (d : ℕ) → put32 d ≡ emit (bytes32 d)
unfolding put32 put_bytes emit store_bytes bytes32
put32-emit d = fun_ext λ b. ground arith

pub put_bool-emit : (b : Bool) → put_bool b ≡ emit (bytes_bool b)
unfolding put_bool bytes_bool
put_bool-emit true = put16-emit 1
put_bool-emit false = put16-emit 0

pub put_char-emit : (c : ℕ) → put_char c ≡ emit (bytes8 c)
unfolding put_char
put_char-emit c = put8-emit c

pub put_timeval-emit : (tv : Timeval) → put_timeval tv ≡ emit (bytes_timeval tv)
unfolding put_timeval bytes_timeval
put_timeval-emit tv = simp put32-emit (emit-append _ _)
