-- ===== src/Shared/Time.antt =====
-- shared/util.cc, lines 184 to 236: sums and differences of times, for the rounds of periodic requests.
-- The seconds stay inside `time_t`.
pub mod Exact
use onldaemons.Prelude.{
  ℕ, sym, ap, ◌+◌, ◌*◌, ◌-◌, ◌<◌, ◌≤◌, ◌≡◌, refl, ◌∙◌, Bool, true, false, not, arith, ltb,
  if◌then◌else◌, Bool-cases, inl, inr,
}
use onldaemons.Prelude.Int.{
  ℤ, pos, negsuc, pos_part, neg_part, ◌+ℤ◌, ◌-ℤ◌, ◌*ℕ◌, ltb_ℤ, int_laws, +ℤ-parts, -ℤ-parts,
  *ℕ-parts, eq_of_parts, ltb_ℤ_iff, neg_part_zero, pos_part_zero, ltb_ℤ-false, ltb_ℤ_ge,
}

pub record Timespec : Type 0 where
  pub tv_sec : ℤ
  pub tv_nsec : ℤ

abbrev pub billion : ℕ
billion = 1000000000

add_carry : ℤ → ℤ → Timespec
add_carry sec nsec =
    if not (ltb_ℤ nsec (pos billion))
    then record { tv_sec = sec +ℤ pos 1; tv_nsec = nsec -ℤ pos billion }
    else record { tv_sec = sec; tv_nsec = nsec }

-- timespec_add(result, t1, t2): the result.
pub timespec_add : Timespec → Timespec → Timespec
unfolding add_carry
timespec_add t1 t2 = add_carry (t1.tv_sec +ℤ t2.tv_sec) (t1.tv_nsec +ℤ t2.tv_nsec)

-- if(result.tv_nsec < 0)
borrow : ℤ → ℤ → Timespec
borrow sec nsec =
    if ltb_ℤ nsec (pos 0)
    then record { tv_sec = sec -ℤ pos 1; tv_nsec = pos billion +ℤ nsec }
    else record { tv_sec = sec; tv_nsec = nsec }

-- if(result.tv_nsec <= -1000000000), and then the other borrow
borrow_twice : ℤ → ℤ → Timespec
unfolding borrow
borrow_twice sec nsec =
    if not (ltb_ℤ (pos 0 -ℤ pos billion) nsec)
    then borrow (sec -ℤ pos 1) (nsec +ℤ pos billion)
    else borrow sec nsec

-- timespec_diff(result, t1, t2): the result, and whether t1 is not before t2.
pub timespec_diff : Timespec → Timespec → Timespec × Bool
unfolding borrow borrow_twice add_carry
timespec_diff t1 t2 =
    if ltb_ℤ t1.tv_sec t2.tv_sec
    then (
      borrow_twice (t1.tv_sec -ℤ t2.tv_sec +ℤ pos 1)
          (pos 0 -ℤ (pos billion -ℤ t1.tv_nsec +ℤ t2.tv_nsec)),
      false,
    )
    else if ltb_ℤ t2.tv_sec t1.tv_sec
    then (
      add_carry (t1.tv_sec -ℤ t2.tv_sec -ℤ pos 1) (t1.tv_nsec +ℤ pos billion -ℤ t2.tv_nsec),
      true,
    )
    else (borrow (pos 0) (t1.tv_nsec -ℤ t2.tv_nsec), not (ltb_ℤ (t1.tv_nsec -ℤ t2.tv_nsec) (pos 0)))

-- The nanoseconds are below one second.
pub record IsTimespec (t : Timespec) : Type 0 where
  pub nonneg : neg_part t.tv_nsec ≡ 0
  pub below : pos_part t.tv_nsec < billion

-- The time in nanoseconds.
unfoldable pub total : Timespec → ℤ
total t = t.tv_sec *ℕ billion +ℤ t.tv_nsec
