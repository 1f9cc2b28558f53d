-- ===== src/Shared/Connection/Reads.antt =====
-- What the loop of get_message takes from a stream of reads.
use onldaemons.Prelude.{
  ℕ, zero, suc, ◌+◌, ◌-◌, ◌<◌, ◌≤◌, ◌≡◌, ◌∙◌, ap, sym, refl, subst, true, false, Option, none, some,
  List, [], ◌∷◌, ◌++◌, leb, ◌==◌ as nat_eq, length, take, drop, All, arith, Bool-cases, inl, inr,
  length-append, take-append, drop-append, take-append-lt, drop-append-lt, length-take, length-drop,
  take-drop, leb→le, le→leb,
}
use onldaemons.Shared.Connection.{Stream, read, receive, prepend}

-- The bytes of a stream, in order.
unfoldable pub concat : Stream → List ℕ
concat [] = []
concat (c ∷ cs) = c ++ concat cs

-- No read finds the end, or an error.
abbrev pub Alive : Stream → Type 0
Alive s = All (λ c. 0 < length c) s

-- One read of a stream that still has bytes takes at least one of them, at most `n`, and from its front.
pub record Reads (n : ℕ) (s : Stream) (b : List ℕ) (s' : Stream) : Type 0 where
  pub some_byte : 0 < length b
  pub at_most : length b ≤ n
  pub split : concat s ≡ b ++ concat s'
  pub alive : Alive s'

take-drop-append : (n : ℕ) (c ys : List ℕ) → n ≤ length c → c ++ ys ≡ take n c ++ (drop n c ++ ys)
take-drop-append zero c ys h = refl
take-drop-append (suc n) [] ys h = absurd (omega arith)
take-drop-append (suc n) (x ∷ c) ys h = ap (◌∷◌ x) (take-drop-append n c ys (omega arith))

pub read-Reads :
    (n : ℕ) (s : Stream)
    → 0 < n
    → Alive s
    → 0 < length (concat s)
    → Reads n s (read n s).0 (read n s).1
unfolding read concat
read-Reads n [] pos alive more = absurd (omega arith)
read-Reads n (c ∷ cs) pos alive more = elim (Bool-cases (leb (length c) n)) [
  | inl e ↦
      let le = leb→le _ _ e in
      rw e (record { some_byte = alive.0; at_most = le; split = refl; alive = alive.1 })
  | inr e ↦
      let long : n < length c = ground arith in
      let size = length-take n c (omega arith) in
      rw e (record {
        some_byte = omega arith;
        at_most = omega arith;
        split = take-drop-append n c (concat cs) (omega arith);
        alive = (omega (arith, length-drop n c), alive.1);
      })
]

-- Where a list begins both with `b` and with the longer `d`, `b` is a prefix of `d`.
pub prefix :
    (b d xs ys : List ℕ)
    → length b ≤ length d
    → b ++ xs ≡ d ++ ys
    → (b ++ drop (length b) d ≡ d) × (xs ≡ drop (length b) d ++ ys)
prefix b d xs ys h e =
    let front : b ≡ take (length b) d =
      sym (take-append b xs) ∙ ap (take (length b)) e ∙ take-append-lt (length b) d ys h in
    (
      ap (λ z. z ++ drop (length b) d) front ∙ take-drop (length b) d,
      sym (drop-append b xs) ∙ ap (drop (length b)) e ∙ drop-append-lt (length b) d ys h,
    )

length-concat-append :
    (s : Stream) (d r : List ℕ) → concat s ≡ d ++ r → length (concat s) ≡ length d + length r
length-concat-append s d r e = ap length e ∙ length-append d r

-- The outcome of a reader that is to return `bytes` and to leave the bytes `rest` on the stream.
pub record Takes (bytes rest : List ℕ) (r : Option (List ℕ) × Stream) : Type 0 where
  pub got : r.0 ≡ some bytes
  pub left : concat r.1 ≡ rest
  pub alive : Alive r.1

prepend-Takes :
    (b d rest : List ℕ) (r : Option (List ℕ) × Stream)
    → Takes d rest r
    → Takes (b ++ d) rest (prepend b r)
unfolding prepend
prepend-Takes b d rest (none, s) t = absurd (let g = t.got in cc)
prepend-Takes b d rest (some x, s) t =
    let g = t.got in record { got = cc g; left = t.left; alive = t.alive }

pub receive-Takes :
    (fuel : ℕ) (bytes rest : List ℕ) (s : Stream)
    → length bytes ≤ fuel
    → Alive s
    → concat s ≡ bytes ++ rest
    → Takes bytes rest (receive fuel (length bytes) s)
unfolding receive
receive-Takes zero [] rest s enough alive e = record { got = refl; left = e; alive = alive }
receive-Takes zero (x ∷ d) rest s enough alive e = absurd (omega arith)
receive-Takes (suc fuel) [] rest s enough alive e = record { got = refl; left = e; alive = alive }
receive-Takes (suc fuel) (x ∷ d) rest s enough alive e =
    let bytes = x ∷ d in
    let size = length-concat-append s bytes rest e in
    let r = read-Reads (length bytes) s (omega arith) alive (omega arith) in
    let b = (read (length bytes) s).0 in
    let p = prefix b bytes (concat (read (length bytes) s).1) rest r.at_most (sym r.split ∙ e) in
    let some_b : nat_eq (length b) 0 ≡ false = (let pos = r.some_byte in ground arith) in
    let more : nat_eq (length bytes) 0 ≡ false = ground arith in
    let len : length bytes - length b ≡ length (drop (length b) bytes) =
      sym (length-drop (length b) bytes) in
    let next =
      receive-Takes fuel (drop (length b) bytes) rest (read (length bytes) s).1
        (let pos = r.some_byte in omega (arith, len)) r.alive p.1 in
    rw (more, some_b, len)
      (subst
        (λ z.
          Takes z rest
            (prepend b (receive fuel (length (drop (length b) bytes)) (read (length bytes) s).1)))
        p.0 (prepend-Takes b _ rest _ next))

prepend-none : (b : List ℕ) (r : Option (List ℕ) × Stream) → r.0 ≡ none → (prepend b r).0 ≡ none
unfolding prepend
prepend-none b (none, s) e = refl
prepend-none b (some x, s) e = absurd (cc e)

-- A stream that ends early: all its bytes are read, and there is no message.
pub receive_short :
    (fuel need : ℕ) (s : Stream)
    → need ≤ fuel
    → Alive s
    → length (concat s) < need
    → (receive fuel need s).0 ≡ none
unfolding receive concat read
receive_short zero need s enough alive few = absurd (omega arith)
receive_short (suc fuel) need [] enough alive few = ground arith
receive_short (suc fuel) need (c ∷ s) enough alive few =
    let size = length-append c (concat s) in
    let fits : leb (length c) need ≡ true = le→leb _ _ (omega arith) in
    let more : nat_eq need 0 ≡ false = ground arith in
    let some_c : nat_eq (length c) 0 ≡ false = (let pos = alive.0 in ground arith) in
    rw (fits, more, some_c)
      (prepend-none c _ (
        receive_short fuel (need - length c) s (let pos = alive.0 in omega arith) alive.1
          (omega arith)))
