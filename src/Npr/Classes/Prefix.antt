-- ===== src/Npr/Classes/Prefix.antt =====
-- What get_prefix_length counts.
use onldaemons.Prelude.{
  ℕ, zero, suc, ◌+◌, ◌/◌, ◌%◌, ◌^◌, ◌≤◌, ◌<◌, ◌≡◌, arith, ◌==◌, Bool-cases, inl, inr, subst,
}
use onldaemons.Npr.Classes.{prefix_from, get_prefix_length}

abbrev pub bit : ℕ → ℕ → ℕ
bit m i = (m / 2 ^ i) % 2

-- The bits of `m` below place `n`: the first `k` are 1, and the next is 0 or there is none.
pub record IsRun (n m k : ℕ) : Type 0 where
  pub fits : k ≤ n
  pub ones : (i : ℕ) → n ≤ i + k → i < n → bit m i ≡ 1
  pub stop : (i : ℕ) → i + k + 1 ≡ n → bit m i ≡ 0

prefix_from-IsRun : (n m l : ℕ) → (k : ℕ) × (prefix_from n m l ≡ l + k) × IsRun n m k
unfolding prefix_from
prefix_from-IsRun zero m l = (
  0,
  omega arith,
  record {
    fits = omega arith;
    ones = λ i a b. absurd (omega arith);
    stop = λ i e. absurd (omega arith);
  },
)
prefix_from-IsRun (suc n) m l = elim (Bool-cases (bit m n == 0)) [
  | inl off ↦ (
    0,
    rw off (omega arith),
    record {
      fits = omega arith;
      ones = λ i a b. absurd (omega arith);
      stop = λ i e. let same : i ≡ n = omega arith in rw same (ground arith);
    },
  )
  | inr on ↦
      let (k, e, w) = prefix_from-IsRun n m (l + 1) in
      (
        suc k,
        rw on (omega arith),
        record {
          fits = let f = w.fits in omega arith;
          ones = λ i a b. elim (Bool-cases (i == n)) [
            | inl same ↦ let e : i ≡ n = ground arith in rw e (ground arith)
            | inr other ↦ w.ones i (omega arith) (ground arith)
          ];
          stop = λ i f. w.stop i (omega arith);
        },
      )
]

-- Of an address mask, get_prefix_length counts the bits that are 1 from place 31 down to the first that
-- is 0, and all 32 if none is.
pub get_prefix_length-IsRun : (addr_mask : ℕ) → IsRun 32 addr_mask (get_prefix_length addr_mask)
unfolding get_prefix_length
get_prefix_length-IsRun addr_mask =
    let (k, e, w) = prefix_from-IsRun 32 addr_mask 0 in
    let same : k ≡ get_prefix_length addr_mask = omega arith in subst (IsRun 32 addr_mask) same w
