-- ===== src/Npr/Packets/Memory/Offsets.antt =====
-- ixp/npr/nprd_ipv4.cc: words cut at a byte offset and joined again.
use Prim.Native.Nat.{bit_or}
use onldaemons.Prelude.{
  ℕ, zero, suc, ◌+◌, ◌-◌, ◌*◌, ◌/◌, ◌%◌, ◌^◌, ◌<◌, ◌≡◌, refl, sym, subst, ap, ◌∙◌, List, [], ◌∷◌,
  All, length,
}
use onldaemons.Prelude.{true, false, ◌==◌, ◌⊎◌, inl, inr, arith}
use onldaemons.Npr.Packets.Bits.{bit_or-shifted}
use onldaemons.Npr.Packets.Checksum.{Word}
use onldaemons.Npr.Packets.Memory.{shift_left, shift_right, join, split, split_all}

-- The shifts for the byte offsets 1, 2 and 3.
pub data Offset : ℕ → ℕ → Type 0 where
  one_byte : Offset 8 24
  two_bytes : Offset 16 16
  three_bytes : Offset 24 8

pub Offset-of_address :
    (o : ℕ) → o < 4 → ((o == 0) ≡ true) ⊎ (((o == 0) ≡ false) × Offset (o * 8) (32 - o * 8))
Offset-of_address zero h = inl refl
Offset-of_address (suc zero) h = inr (refl, one_byte)
Offset-of_address (suc (suc zero)) h = inr (refl, two_bytes)
Offset-of_address (suc (suc (suc zero))) h = inr (refl, three_bytes)
Offset-of_address (suc (suc (suc (suc o)))) h = absurd (omega arith)

shift_left_lem : {s1 s2 : ℕ} → Offset s1 s2 → (d : ℕ) → shift_left d s2 ≡ d % 2 ^ s1 * 2 ^ s2
shift_left_lem one_byte d = omega arith
shift_left_lem two_bytes d = omega arith
shift_left_lem three_bytes d = omega arith

pub start_below : {s1 s2 : ℕ} → Offset s1 s2 → (d : ℕ) → d < 2 ^ 32 → d / 2 ^ s1 < 2 ^ s2
start_below one_byte d h = omega arith
start_below two_bytes d h = omega arith
start_below three_bytes d h = omega arith

pub mod_below : {s1 s2 : ℕ} → Offset s1 s2 → (d : ℕ) → d % 2 ^ s2 < 2 ^ s2
mod_below one_byte d = omega arith
mod_below two_bytes d = omega arith
mod_below three_bytes d = omega arith

sum_below : {s1 s2 : ℕ} → Offset s1 s2 → (d y : ℕ) → y < 2 ^ s2 → d % 2 ^ s1 * 2 ^ s2 + y < 2 ^ 32
sum_below one_byte d y h = omega arith
sum_below two_bytes d y h = omega arith
sum_below three_bytes d y h = omega arith

pub bit_or-shift_left :
    {s1 s2 : ℕ}
    → Offset s1 s2
    → (d y : ℕ) → y < 2 ^ s2
    → bit_or (shift_left d s2) y ≡ d % 2 ^ s1 * 2 ^ s2 + y
bit_or-shift_left {s1 = s1} {s2 = s2} o d y h =
    ap (λ x. bit_or x y) (shift_left_lem o d) ∙ bit_or-shifted s2 (d % 2 ^ s1) y h

pub stored_below :
    {s1 s2 : ℕ} → Offset s1 s2 → (d y : ℕ) → y < 2 ^ s2 → bit_or (shift_left d s2) y < 2 ^ 32
stored_below o d y h = subst (λ v. v < 2 ^ 32) (sym (bit_or-shift_left o d y h)) (sum_below o d y h)

-- A stored word that ends in the start of d, and one that starts with the end of d.
end_of :
    {s1 s2 : ℕ}
    → Offset s1 s2
    → (c d : ℕ) → d < 2 ^ 32
    → shift_left (c * 2 ^ s2 + d / 2 ^ s1) s1 ≡ d / 2 ^ s1 * 2 ^ s1
end_of one_byte c d h = omega arith
end_of two_bytes c d h = omega arith
end_of three_bytes c d h = omega arith

start_of :
    {s1 s2 : ℕ}
    → Offset s1 s2
    → (d x : ℕ) → x < 2 ^ s2
    → shift_right (d % 2 ^ s1 * 2 ^ s2 + x) s2 ≡ d % 2 ^ s1
start_of one_byte d x h = omega arith
start_of two_bytes d x h = omega arith
start_of three_bytes d x h = omega arith

whole : {s1 s2 : ℕ} → Offset s1 s2 → (d : ℕ) → bit_or (d / 2 ^ s1 * 2 ^ s1) (d % 2 ^ s1) ≡ d
whole one_byte d = bit_or-shifted 8 (d / 2 ^ 8) (d % 2 ^ 8) (omega arith) ∙ omega arith
whole two_bytes d = bit_or-shifted 16 (d / 2 ^ 16) (d % 2 ^ 16) (omega arith) ∙ omega arith
whole three_bytes d = bit_or-shifted 24 (d / 2 ^ 24) (d % 2 ^ 24) (omega arith) ∙ omega arith

joined :
    {s1 s2 : ℕ}
    → Offset s1 s2
    → (c d x : ℕ) → d < 2 ^ 32
    → x < 2 ^ s2
    → bit_or (shift_left (c * 2 ^ s2 + d / 2 ^ s1) s1) (shift_right (bit_or (shift_left d s2) x) s2)
      ≡ d
joined {s1 = s1} {s2 = s2} o c d x h k =
    ap (λ v. bit_or v (shift_right (bit_or (shift_left d s2) x) s2)) (end_of o c d h)
    ∙ ap (λ w. bit_or (d / 2 ^ s1 * 2 ^ s1) (shift_right w s2)) (bit_or-shift_left o d x k)
    ∙ ap (λ w. bit_or (d / 2 ^ s1 * 2 ^ s1) w) (start_of o d x k)
    ∙ whole o d

join-split :
    {s1 s2 : ℕ}
    → Offset s1 s2
    → (ds : List ℕ) (c d after : ℕ) → d < 2 ^ 32
    → All Word ds
    → join s1 s2 ((c * 2 ^ s2 + d / 2 ^ s1) ∷ split s1 s2 after (d ∷ ds)) ≡ d ∷ ds
unfolding join split
join-split {s1 = s1} {s2 = s2} o [] c d after h w =
    ap (λ x. x ∷ []) (joined o c d (after % 2 ^ s2) h (mod_below o after))
join-split {s1 = s1} {s2 = s2} o (e ∷ es) c d after h w =
    let small = start_below o e w.0 in
    ap (λ x. x ∷ join s1 s2 (bit_or (shift_left d s2) (e / 2 ^ s1) ∷ split s1 s2 after (e ∷ es)))
      (joined o c d (e / 2 ^ s1) h small)
    ∙ ap (λ v. d ∷ join s1 s2 (v ∷ split s1 s2 after (e ∷ es)))
        (bit_or-shift_left o d (e / 2 ^ s1) small)
    ∙ ap (◌∷◌ d) (join-split o es (d % 2 ^ s1) e after w.0 w.1)

-- Joining takes the words back out of the stored ones.
pub join-split_all :
    {s1 s2 : ℕ}
    → Offset s1 s2
    → (before after : ℕ) (ds : List ℕ) → All Word ds
    → join s1 s2 (split_all s1 s2 before after ds) ≡ ds
unfolding join split_all
join-split_all {s1 = s1} {s2 = s2} o before after [] w = refl
join-split_all {s1 = s1} {s2 = s2} o before after (d ∷ ds) w =
    ap (λ v. join s1 s2 (v ∷ split s1 s2 after (d ∷ ds)))
      (bit_or-shifted s2 (before / 2 ^ s2) (d / 2 ^ s1) (start_below o d w.0))
    ∙ join-split o ds (before / 2 ^ s2) d after w.0 w.1

pub length-split : (s1 s2 after : ℕ) (ds : List ℕ) → length (split s1 s2 after ds) ≡ length ds
unfolding split
length-split s1 s2 after [] = refl
length-split s1 s2 after (d ∷ []) = refl
length-split s1 s2 after (d ∷ e ∷ es) = ap suc (length-split s1 s2 after (e ∷ es))

pub split-Word :
    {s1 s2 : ℕ}
    → Offset s1 s2
    → (after : ℕ) (ds : List ℕ) → All Word ds
    → All Word (split s1 s2 after ds)
unfolding split
split-Word o after [] w = tt
split-Word {s2 = s2} o after (d ∷ []) w =
    (stored_below o d (after % 2 ^ s2) (mod_below o after), tt)
split-Word {s1 = s1} o after (d ∷ e ∷ es) w =
    (stored_below o d (e / 2 ^ s1) (start_below o e w.1.0), split-Word o after (e ∷ es) w.1)

first_below :
    {s1 s2 : ℕ}
    → Offset s1 s2
    → (before y : ℕ) → before < 2 ^ 32
    → y < 2 ^ s2
    → before / 2 ^ s2 * 2 ^ s2 + y < 2 ^ 32
first_below one_byte before y h k = omega arith
first_below two_bytes before y h k = omega arith
first_below three_bytes before y h k = omega arith

pub split_all-Word :
    {s1 s2 : ℕ}
    → Offset s1 s2
    → (before after : ℕ) (ds : List ℕ) → before < 2 ^ 32
    → All Word ds
    → All Word (split_all s1 s2 before after ds)
unfolding split_all
split_all-Word o before after [] h w = tt
split_all-Word {s1 = s1} {s2 = s2} o before after (d ∷ ds) h w =
    let small = start_below o d w.0 in
    let v = bit_or-shifted s2 (before / 2 ^ s2) (d / 2 ^ s1) small in
    (
      subst (λ v. v < 2 ^ 32) (sym v) (first_below o before (d / 2 ^ s1) h small),
      split-Word o after (d ∷ ds) w,
    )

-- The stored start of the first word is the end of the word before it.
kept :
    {s1 s2 : ℕ}
    → Offset s1 s2
    → (x y : ℕ) → y < 2 ^ s2
    → (x % 2 ^ s1 * 2 ^ s2 + y) / 2 ^ s2 * 2 ^ s2 ≡ x % 2 ^ s1 * 2 ^ s2
kept one_byte x y h = omega arith
kept two_bytes x y h = omega arith
kept three_bytes x y h = omega arith

pub kept-bit_or :
    {s1 s2 : ℕ}
    → Offset s1 s2
    → (x y : ℕ) → y < 2 ^ s2
    → bit_or (shift_left x s2) y / 2 ^ s2 * 2 ^ s2 ≡ shift_left x s2
kept-bit_or {s2 = s2} o x y h =
    ap (λ v. v / 2 ^ s2 * 2 ^ s2) (bit_or-shift_left o x y h)
    ∙ kept o x y h
    ∙ sym (shift_left_lem o x)
