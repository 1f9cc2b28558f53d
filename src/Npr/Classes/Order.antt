-- ===== src/Npr/Classes/Order.antt =====
-- The classes of indexes: longer prefixes come first, and what a delete computes from an index.
use onldaemons.Prelude.{
  ℕ, zero, suc, ◌-◌, ◌^◌, ◌≤◌, ◌<◌, ◌≡◌, ◌≢◌, arith, ◌==◌, true, false, if◌then◌else◌,
}
use onldaemons.Npr.FreeList.{Range}
use onldaemons.Npr.Classes.{
  mc_start, uc_start, pfilter_start, afilter_start, is_mc_index, mc_class, uc_class, pfilter_class,
  afilter_class,
}

abbrev pub Within : ℕ → Range → Type 0
Within i r = (r.left ≤ i) × (i ≤ r.right)

-- For a multicast route of any prefix length up to 32, every index of the length's range is one of the
-- multicast indexes, and deleting the route computes the length from it.
pub mc_class-mc_start :
    (len i : ℕ) → len ≤ 32 → Within i (mc_start len) → (is_mc_index i ≡ true) × (mc_class i ≡ len)
unfolding mc_class mc_start is_mc_index
mc_class-mc_start zero i small w = (ground arith, ground arith)
mc_class-mc_start (suc zero) i small w = (ground arith, ground arith)
mc_class-mc_start (suc (suc len)) i small w = (ground arith, ground arith)

-- For a unicast route of any prefix length up to 32, no index of the length's range is a multicast
-- index. Deleting the route computes the length from it, except that it computes 0 for length 1.
pub uc_class-uc_start :
    (len i : ℕ)
    → len ≤ 32
    → Within i (uc_start len)
    → (is_mc_index i ≡ false) × (uc_class i ≡ (if len == 1 then 0 else len))
unfolding uc_class uc_start is_mc_index
uc_class-uc_start zero i small w = (ground arith, ground arith)
uc_class-uc_start (suc zero) i small w = (ground arith, ground arith)
uc_class-uc_start (suc (suc len)) i small w = (ground arith, ground arith)

-- For a filter of any priority up to 63, deleting it computes 63 less its priority from every index of
-- the priority's range, in both tables: never the priority itself.
pub filter_class-filter_start :
    (priority i : ℕ)
    → priority ≤ 63
    → (Within i (pfilter_start priority)
        → (pfilter_class i ≡ 63 - priority) × (pfilter_class i ≢ priority))
      × (Within i (afilter_start priority)
          → (afilter_class i ≡ 63 - priority) × (afilter_class i ≢ priority))
unfolding pfilter_class pfilter_start afilter_class afilter_start
filter_class-filter_start priority i small =
    (λ w. (omega arith, omega arith), λ w. (omega arith, omega arith))

-- Every index of the first range stands before every index of the second.
abbrev pub Before : Range → Range → Type 0
Before r r' = r.right < r'.left

-- For two prefix lengths up to 32, the indexes of the longer stand before those of the shorter, among
-- the multicast and among the unicast routes, and every multicast index stands before every unicast
-- one; for two priorities up to 63, the indexes of the filters stand in the order of their numbers.
pub start-Before :
    (short long low high : ℕ)
    → short < long
    → long ≤ 32
    → low < high
    → high ≤ 63
    → Before (mc_start long) (mc_start short)
      × Before (uc_start long) (uc_start short)
      × Before (mc_start short) (uc_start long)
      × Before (mc_start long) (uc_start short)
      × Before (pfilter_start low) (pfilter_start high)
      × Before (afilter_start low) (afilter_start high)
unfolding mc_start uc_start pfilter_start afilter_start
start-Before short zero low high lt small lt' small' = absurd (omega arith)
start-Before zero (suc zero) low high lt small lt' small' = omega arith
start-Before (suc short) (suc zero) low high lt small lt' small' = absurd (omega arith)
start-Before zero (suc (suc long)) low high lt small lt' small' = omega arith
start-Before (suc zero) (suc (suc long)) low high lt small lt' small' = omega arith
start-Before (suc (suc short)) (suc (suc long)) low high lt small lt' small' = omega arith

pub mc_start_bounds :
    (len : ℕ) → len ≤ 32 → (1 ≤ (mc_start len).left) × ((mc_start len).right < 2 ^ 32 - 1)
unfolding mc_start
mc_start_bounds zero small = omega arith
mc_start_bounds (suc zero) small = omega arith
mc_start_bounds (suc (suc len)) small = omega arith

pub uc_start_bounds :
    (len : ℕ) → len ≤ 32 → (1 ≤ (uc_start len).left) × ((uc_start len).right < 2 ^ 32 - 1)
unfolding uc_start
uc_start_bounds zero small = omega arith
uc_start_bounds (suc zero) small = omega arith
uc_start_bounds (suc (suc len)) small = omega arith
