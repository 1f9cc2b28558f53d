-- ===== src/Shared/Time/Exact.antt =====
-- The sums and differences of times are exact, and stay in range.
use onldaemons.Prelude.{
  sym, ap, ◌+◌, ◌*◌, ◌<◌, ◌≤◌, ◌≡◌, refl, ◌∙◌, true, false, not, arith, Bool-cases, inl, inr,
}
use onldaemons.Prelude.Int.{
  ℤ, pos, pos_part, neg_part, ◌+ℤ◌, ◌-ℤ◌, ◌*ℕ◌, ltb_ℤ, int_laws, +ℤ-parts, -ℤ-parts, *ℕ-parts,
  ltb_ℤ_iff, neg_part_zero, pos_part_zero, ltb_ℤ-false, ltb_ℤ_ge,
}
use onldaemons.Shared.Time.{
  Timespec, billion, add_carry, timespec_add, borrow, borrow_twice, timespec_diff, IsTimespec,
  total,
}

add_carry-total : (sec nsec : ℤ) → total (add_carry sec nsec) ≡ sec *ℕ billion +ℤ nsec
unfolding total add_carry
add_carry-total sec nsec = elim (Bool-cases (ltb_ℤ nsec (pos billion))) [
  | inl e ↦ rw e refl
  | inr e ↦ rw e (
      let one = *ℕ-parts (sec +ℤ pos 1) billion in let two = *ℕ-parts sec billion in omega int_laws)
]

borrow-total : (sec nsec : ℤ) → total (borrow sec nsec) ≡ sec *ℕ billion +ℤ nsec
unfolding total borrow
borrow-total sec nsec = elim (Bool-cases (ltb_ℤ nsec (pos 0))) [
  | inl e ↦
      let one = *ℕ-parts (sec -ℤ pos 1) billion in
      let two = *ℕ-parts sec billion in rw e (omega int_laws)
  | inr e ↦ rw e refl
]

borrow_twice-total : (sec nsec : ℤ) → total (borrow_twice sec nsec) ≡ sec *ℕ billion +ℤ nsec
unfolding borrow_twice
borrow_twice-total sec nsec = elim (Bool-cases (ltb_ℤ (pos 0 -ℤ pos billion) nsec)) [
  | inl e ↦ rw e (borrow-total sec nsec)
  | inr e ↦
      let one = *ℕ-parts (sec -ℤ pos 1) billion in
      let two = *ℕ-parts sec billion in
      rw e (borrow-total (sec -ℤ pos 1) (nsec +ℤ pos billion) ∙ omega int_laws)
]

add_carry-IsTimespec :
    (sec nsec : ℤ)
    → neg_part nsec ≡ 0
    → pos_part nsec < 2 * billion
    → IsTimespec (add_carry sec nsec)
unfolding add_carry
add_carry-IsTimespec sec nsec nonneg small =
    let test = ltb_ℤ_iff nsec (pos billion) in
    let less = -ℤ-parts nsec (pos billion) in
    let zero_part = neg_part_zero (nsec -ℤ pos billion) in
    elim (Bool-cases (ltb_ℤ nsec (pos billion))) [
      | inl e ↦ let low = test.0 e in rw e (record { nonneg = nonneg; below = omega arith })
      | inr e ↦
          let high : billion ≤ pos_part nsec = ground arith in
          let z : neg_part (nsec -ℤ pos billion) ≡ 0 = zero_part (omega arith) in
          rw e (record { nonneg = z; below = omega arith })
    ]

borrow-IsTimespec :
    (sec nsec : ℤ)
    → pos_part nsec < billion
    → neg_part nsec ≤ billion
    → IsTimespec (borrow sec nsec)
unfolding borrow
borrow-IsTimespec sec nsec high low =
    let test = ltb_ℤ_iff nsec (pos 0) in
    let sum = +ℤ-parts (pos billion) nsec in
    let zero_part = neg_part_zero (pos billion +ℤ nsec) in
    elim (Bool-cases (ltb_ℤ nsec (pos 0))) [
      | inl e ↦
          let negative = test.0 e in
          let z : neg_part (pos billion +ℤ nsec) ≡ 0 = zero_part (omega arith) in
          rw e (record { nonneg = z; below = omega arith })
      | inr e ↦
          let z : neg_part nsec ≡ 0 = neg_part_zero nsec (ground arith) in
          rw e (record { nonneg = z; below = high })
    ]

borrow_twice-IsTimespec :
    (sec nsec : ℤ)
    → pos_part nsec ≡ 0
    → neg_part nsec < 2 * billion
    → IsTimespec (borrow_twice sec nsec)
unfolding borrow_twice
borrow_twice-IsTimespec sec nsec high low =
    let test = ltb_ℤ_iff (pos 0 -ℤ pos billion) nsec in
    let bound = -ℤ-parts (pos 0) (pos billion) in
    let sum = +ℤ-parts nsec (pos billion) in
    elim (Bool-cases (ltb_ℤ (pos 0 -ℤ pos billion) nsec)) [
      | inl e ↦
          let above = test.0 e in rw e (borrow-IsTimespec sec nsec (omega arith) (omega arith))
      | inr e ↦
          let under : billion ≤ neg_part nsec = ground arith in
          let p : pos_part (nsec +ℤ pos billion) ≡ 0 =
            pos_part_zero (nsec +ℤ pos billion) (omega arith) in
          rw e (borrow-IsTimespec (sec -ℤ pos 1) (nsec +ℤ pos billion) (omega arith) (omega arith))
    ]

-- The sum of two times in range is in range, and is the sum of their nanoseconds.
pub timespec_add_lem :
    (t1 t2 : Timespec)
    → IsTimespec t1
    → IsTimespec t2
    → IsTimespec (timespec_add t1 t2) × (total (timespec_add t1 t2) ≡ total t1 +ℤ total t2)
unfolding timespec_add total
timespec_add_lem t1 t2 w1 w2 =
    let one = *ℕ-parts t1.tv_sec billion in
    let two = *ℕ-parts t2.tv_sec billion in
    let sum = *ℕ-parts (t1.tv_sec +ℤ t2.tv_sec) billion in
    let n1 = w1.nonneg in
    let n2 = w2.nonneg in
    let b1 = w1.below in
    let b2 = w2.below in
    let nsec = +ℤ-parts t1.tv_nsec t2.tv_nsec in
    let z : neg_part (t1.tv_nsec +ℤ t2.tv_nsec) ≡ 0 =
      neg_part_zero (t1.tv_nsec +ℤ t2.tv_nsec) (omega arith) in
    (add_carry-IsTimespec _ _ z (omega arith), add_carry-total _ _ ∙ omega int_laws)

-- The three branches of timespec_diff.
later :
    (t1 t2 : Timespec)
    → IsTimespec t1
    → IsTimespec t2
    → let nsec = t1.tv_nsec +ℤ pos billion -ℤ t2.tv_nsec in
      (neg_part nsec ≡ 0) × (pos_part nsec < 2 * billion)
later t1 t2 w1 w2 =
    let n1 = w1.nonneg in
    let n2 = w2.nonneg in
    let b1 = w1.below in
    let b2 = w2.below in
    let up = +ℤ-parts t1.tv_nsec (pos billion) in
    let down = -ℤ-parts (t1.tv_nsec +ℤ pos billion) t2.tv_nsec in
    let z = neg_part_zero (t1.tv_nsec +ℤ pos billion -ℤ t2.tv_nsec) (omega arith) in
    (z, omega arith)

earlier :
    (t1 t2 : Timespec)
    → IsTimespec t1
    → IsTimespec t2
    → let nsec = pos 0 -ℤ (pos billion -ℤ t1.tv_nsec +ℤ t2.tv_nsec) in
      (pos_part nsec ≡ 0) × (neg_part nsec < 2 * billion)
earlier t1 t2 w1 w2 =
    let n1 = w1.nonneg in
    let n2 = w2.nonneg in
    let b1 = w1.below in
    let b2 = w2.below in
    let a = pos billion -ℤ t1.tv_nsec in
    let one = -ℤ-parts (pos billion) t1.tv_nsec in
    let two = +ℤ-parts a t2.tv_nsec in
    let three = -ℤ-parts (pos 0) (a +ℤ t2.tv_nsec) in
    let z = pos_part_zero (pos 0 -ℤ (a +ℤ t2.tv_nsec)) (omega arith) in (z, omega arith)

level :
    (t1 t2 : Timespec)
    → IsTimespec t1
    → IsTimespec t2
    → let nsec = t1.tv_nsec -ℤ t2.tv_nsec in (pos_part nsec < billion) × (neg_part nsec ≤ billion)
level t1 t2 w1 w2 =
    let n1 = w1.nonneg in
    let n2 = w2.nonneg in
    let b1 = w1.below in
    let b2 = w2.below in
    let less = -ℤ-parts t1.tv_nsec t2.tv_nsec in
    let up = neg_part_zero (t1.tv_nsec -ℤ t2.tv_nsec) in
    let down = pos_part_zero (t1.tv_nsec -ℤ t2.tv_nsec) in (ground arith, ground arith)

total-parts :
    (t : Timespec)
    → pos_part (total t) + neg_part t.tv_sec * billion + neg_part t.tv_nsec
      ≡ neg_part (total t) + pos_part t.tv_sec * billion + pos_part t.tv_nsec
unfolding total
total-parts t =
    let one = *ℕ-parts t.tv_sec billion in
    let two = +ℤ-parts (t.tv_sec *ℕ billion) t.tv_nsec in omega arith

level_sign :
    (t1 t2 : Timespec)
    → ltb_ℤ t1.tv_sec t2.tv_sec ≡ false
    → ltb_ℤ t2.tv_sec t1.tv_sec ≡ false
    → ltb_ℤ (t1.tv_nsec -ℤ t2.tv_nsec) (pos 0) ≡ ltb_ℤ (total t1) (total t2)
level_sign t1 t2 e f =
    let after = ltb_ℤ_ge t1.tv_sec t2.tv_sec e in
    let before = ltb_ℤ_ge t2.tv_sec t1.tv_sec f in
    let v1 = total-parts t1 in
    let v2 = total-parts t2 in
    let nsec = -ℤ-parts t1.tv_nsec t2.tv_nsec in
    elim (Bool-cases (ltb_ℤ (t1.tv_nsec -ℤ t2.tv_nsec) (pos 0))) [
      | inl g ↦
          let negative = (ltb_ℤ_iff (t1.tv_nsec -ℤ t2.tv_nsec) (pos 0)).0 g in
          g ∙ sym ((ltb_ℤ_iff (total t1) (total t2)).1 (omega arith))
      | inr g ↦
          let positive = ltb_ℤ_ge (t1.tv_nsec -ℤ t2.tv_nsec) (pos 0) g in
          g ∙ sym (ltb_ℤ-false (total t1) (total t2) (omega arith))
    ]

-- For two times in range the difference is in range and exact, and the answer is whether the first is
-- not before the second.
pub timespec_diff_lem :
    (t1 t2 : Timespec)
    → IsTimespec t1
    → IsTimespec t2
    → let (result, ok) = timespec_diff t1 t2 in
      IsTimespec result
      × (total result ≡ total t1 -ℤ total t2)
      × (ok ≡ not (ltb_ℤ (total t1) (total t2)))
unfolding timespec_diff
timespec_diff_lem t1 t2 w1 w2 =
    let n1 = w1.nonneg in
    let n2 = w2.nonneg in
    let b1 = w1.below in
    let b2 = w2.below in
    let v1 = total-parts t1 in
    let v2 = total-parts t2 in
    let v = -ℤ-parts (total t1) (total t2) in
    let test = ltb_ℤ_iff (total t1) (total t2) in
    elim (Bool-cases (ltb_ℤ t1.tv_sec t2.tv_sec)) [
      | inl e ↦
          let before = (ltb_ℤ_iff t1.tv_sec t2.tv_sec).0 e in
          let r = earlier t1 t2 w1 w2 in
          let less : ltb_ℤ (total t1) (total t2) ≡ true = test.1 (omega arith) in
          let sec = *ℕ-parts (t1.tv_sec -ℤ t2.tv_sec +ℤ pos 1) billion in
          rw (e, less)
            (borrow_twice-IsTimespec _ _ r.0 r.1, borrow_twice-total _ _ ∙ omega int_laws, refl)
      | inr e ↦
          let after = ltb_ℤ_ge t1.tv_sec t2.tv_sec e in
          elim (Bool-cases (ltb_ℤ t2.tv_sec t1.tv_sec)) [
            | inl f ↦
                let behind = (ltb_ℤ_iff t2.tv_sec t1.tv_sec).0 f in
                let r = later t1 t2 w1 w2 in
                let more : ltb_ℤ (total t1) (total t2) ≡ false =
                  ltb_ℤ-false (total t1) (total t2) (omega arith) in
                let sec = *ℕ-parts (t1.tv_sec -ℤ t2.tv_sec -ℤ pos 1) billion in
                rw (e, f, more)
                  (add_carry-IsTimespec _ _ r.0 r.1, add_carry-total _ _ ∙ omega int_laws, refl)
            | inr f ↦
                let equal = ltb_ℤ_ge t2.tv_sec t1.tv_sec f in
                let r = level t1 t2 w1 w2 in
                let sec = *ℕ-parts (pos 0) billion in
                let nsec = -ℤ-parts t1.tv_nsec t2.tv_nsec in
                rw (e, f)
                  (
                    borrow-IsTimespec _ _ r.0 r.1,
                    borrow-total _ _ ∙ omega int_laws,
                    ap not (level_sign t1 t2 e f),
                  )
          ]
    ]
