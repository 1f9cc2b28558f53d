-- ===== src/Npr/Packets/Bits.antt =====
-- The operator `|` of C where its operands share no bit.
use Prim.Native.Nat.{bit_or, bit_or-bitwise, digits, max}
use native.Mathlib.Omega.{pow_step}
use native.Mathlib.Nat.{mul_left_comm}
use onldaemons.Prelude.{ℕ, zero, suc, ◌+◌, ◌*◌, ◌/◌, ◌%◌, ◌^◌, ◌≤◌, ◌<◌, ◌≡◌, refl, ap, ◌∙◌, arith}

abbrev or_digits : ℕ → ℕ → ℕ → ℕ
or_digits n x y = digits (λ b. b) max n x y

or_digits_zero : (n x : ℕ) → x ≤ n → or_digits n x 0 ≡ x
or_digits_zero zero x h = omega arith
or_digits_zero (suc n) zero h = refl
or_digits_zero (suc n) (suc x) h =
    let half = or_digits_zero n (suc x / 2) (omega arith) in
    ap (λ r. r * 2 + max (suc x % 2) 0) half ∙ ground arith

or_digits_double :
    (n x m y : ℕ) → x ≡ 2 * m → or_digits n m (y / 2) ≡ m + y / 2 → or_digits (suc n) x y ≡ x + y
or_digits_double n zero m y e h = omega arith
or_digits_double n (suc x) m y e h =
    let half : suc x / 2 ≡ m = omega arith in
    ap (λ k. or_digits n k (y / 2) * 2 + max (suc x % 2) (y % 2)) half
    ∙ ap (λ r. r * 2 + max (suc x % 2) (y % 2)) h
    ∙ ground arith

twice_below : (k c : ℕ) → c * 2 ^ suc k ≡ 2 * (c * 2 ^ k)
twice_below k c = ap (λ p. c * p) (pow_step 2 k) ∙ mul_left_comm c 2 (2 ^ k)

or_digits-shifted :
    (n k c y : ℕ) → c * 2 ^ k ≤ n → y < 2 ^ k → or_digits n (c * 2 ^ k) y ≡ c * 2 ^ k + y
or_digits-shifted n zero c y a b =
    let none_below : y ≡ 0 = omega arith in
    ap (λ z. or_digits n (c * 1) z) none_below ∙ or_digits_zero n (c * 1) a ∙ omega arith
or_digits-shifted zero (suc k) c y a b = omega arith
or_digits-shifted (suc n) (suc k) c y a b =
    let double : c * 2 ^ suc k ≡ 2 * (c * 2 ^ k) = twice_below k c in
    or_digits_double n (c * 2 ^ suc k) (c * 2 ^ k) y double
      (or_digits-shifted n k c (y / 2) (omega arith) (omega arith))

-- The bits of the second number stand below those of the first.
pub bit_or-shifted : (k c y : ℕ) → y < 2 ^ k → bit_or (c * 2 ^ k) y ≡ c * 2 ^ k + y
bit_or-shifted k c y h =
    bit_or-bitwise (c * 2 ^ k) y ∙ or_digits-shifted (c * 2 ^ k) k c y (omega arith) h
