-- ===== src/Npr/Packets/Checksum.antt =====
-- ixp/npr/nprd_ipv4.cc, compute_cksm and compute_partial_cksm: the Internet checksum of words.
use onldaemons.Prelude.{ℕ, suc, ◌+◌, ◌-◌, ◌/◌, ◌%◌, ◌^◌, ◌<◌, ◌≡◌, refl, ◌∙◌, ap, List, [], ◌∷◌}
use onldaemons.Prelude.{◌++◌, ◌==◌, if◌then◌else◌, All, arith}

-- The two halves of one round of the loop: the sum, its carry, and the carry added below.
unfoldable pub add_half : (cksm half : ℕ) → ℕ
add_half cksm half =
    let sum = (cksm + half) % 2 ^ 32 in let carry = sum / 2 ^ 16 in (sum % 2 ^ 16 + carry) % 2 ^ 32

unfoldable pub compute_partial_cksm : (cksm : ℕ) (words : List ℕ) → ℕ
compute_partial_cksm cksm [] = cksm
compute_partial_cksm cksm (d ∷ ds) =
    compute_partial_cksm (add_half (add_half cksm (d / 2 ^ 16)) (d % 2 ^ 16)) ds

unfoldable pub compute_cksm : (words : List ℕ) → ℕ
compute_cksm words = (2 ^ 16 - 1 + 2 ^ 32 - compute_partial_cksm 0 words) % 2 ^ 32

-- The reference: the plain sum of the halves, and its only equal in ones' complement on 16 bits,
-- which is 0 for 0 alone.
unfoldable pub halves_sum : List ℕ → ℕ
halves_sum [] = 0
halves_sum (d ∷ ds) = d / 2 ^ 16 + d % 2 ^ 16 + halves_sum ds

unfoldable pub ones_complement : ℕ → ℕ
ones_complement n = if n == 0 then 0 else suc ((n - 1) % (2 ^ 16 - 1))

abbrev pub Word : ℕ → Type 0
Word d = d < 2 ^ 32

add_half-ones_complement :
    (n half : ℕ) → half < 2 ^ 16 → add_half (ones_complement n) half ≡ ones_complement (n + half)
unfolding add_half ones_complement
add_half-ones_complement n half h = ground arith

partial-from :
    (n : ℕ) (words : List ℕ)
    → All Word words
    → compute_partial_cksm (ones_complement n) words ≡ ones_complement (n + halves_sum words)
unfolding compute_partial_cksm halves_sum
partial-from n [] w = ap ones_complement (omega arith)
partial-from n (d ∷ ds) w =
    ap (λ c. compute_partial_cksm (add_half c (d % 2 ^ 16)) ds)
      (add_half-ones_complement n (d / 2 ^ 16) (omega arith))
    ∙ ap (λ c. compute_partial_cksm c ds)
        (add_half-ones_complement (n + d / 2 ^ 16) (d % 2 ^ 16) (omega arith))
    ∙ partial-from (n + d / 2 ^ 16 + d % 2 ^ 16) ds w.1
    ∙ ap ones_complement (omega arith)

pub halves_sum-append : (xs ys : List ℕ) → halves_sum (xs ++ ys) ≡ halves_sum xs + halves_sum ys
unfolding halves_sum
halves_sum-append [] ys = omega arith
halves_sum-append (x ∷ xs) ys =
    ap (λ s. x / 2 ^ 16 + x % 2 ^ 16 + s) (halves_sum-append xs ys) ∙ omega arith

-- From 0 and over words of 32 bits, the loop with its carries computes the plain sum of all their
-- 16-bit halves in ones' complement on 16 bits.
pub compute_partial_cksm-halves_sum :
    (words : List ℕ)
    → All Word words
    → compute_partial_cksm 0 words ≡ ones_complement (halves_sum words)
unfolding ones_complement
compute_partial_cksm-halves_sum words w = partial-from 0 words w ∙ ap ones_complement (omega arith)

-- The loop continues over the next words from the sum of the last ones.
pub compute_partial_cksm-append :
    (xs : List ℕ) (cksm : ℕ) (ys : List ℕ)
    → compute_partial_cksm cksm (xs ++ ys) ≡ compute_partial_cksm (compute_partial_cksm cksm xs) ys
unfolding compute_partial_cksm
compute_partial_cksm-append [] cksm ys = refl
compute_partial_cksm-append (x ∷ xs) cksm ys = compute_partial_cksm-append xs _ ys

-- The complement of a sum, put anywhere under the sum, makes it the number of all ones.
pub ones_complement-filled :
    (n : ℕ) → ones_complement (n + (2 ^ 16 - 1 - ones_complement n)) ≡ 2 ^ 16 - 1
unfolding ones_complement
ones_complement-filled n = ground arith
