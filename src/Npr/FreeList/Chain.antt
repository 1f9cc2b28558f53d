-- ===== src/Npr/FreeList/Chain.antt =====
-- The ranges of a free list in order, with a gap between neighbours: what giving and taking back does
-- to the set of free indexes.
use onldaemons.Prelude.{
  ℕ, ◌+◌, ◌-◌, ◌%◌, ◌^◌, ◌≤◌, ◌<◌, ◌≡◌, refl, List, [], ◌∷◌, Option, none, some, Bool, true, false,
  ◌||◌, ◌&&◌, ltb, leb, ◌==◌, arith, Bool-cases, inl, inr, ltb→lt, ◌≢◌, subst,
}
use onldaemons.Npr.FreeList.{
  Range, range, get_free_index, insert_after, insert_before, add_free_index,
}

-- From `lo` to `hi`, with at least one index that is not free between two ranges.
abbrev pub Chain : ℕ → ℕ → List Range → Type 0
Chain lo hi [] = Unit
Chain lo hi (r ∷ rs) =
    (lo ≤ r.left) × (r.left ≤ r.right) × (r.right ≤ hi) × Chain (r.right + 2) hi rs

abbrev pub is_free : ℕ → List Range → Bool
is_free i [] = false
is_free i (r ∷ rs) = (leb r.left i && leb i r.right) || is_free i rs

pub Chain-weaken : (lo lo' hi : ℕ) (rs : List Range) → lo' ≤ lo → Chain lo hi rs → Chain lo' hi rs
Chain-weaken lo lo' hi [] h c = tt
Chain-weaken lo lo' hi (r ∷ rs) h c = (omega arith, c.1, c.2, c.3)

-- No index below the first one is free.
pub below-is_free : (lo hi i : ℕ) (rs : List Range) → i < lo → Chain lo hi rs → is_free i rs ≡ false
below-is_free lo hi i [] h c = refl
below-is_free lo hi i (r ∷ rs) h c =
    ground (arith, below-is_free (r.right + 2) hi i rs (omega arith) c.3)

insert_after-Chain :
    (lo hi i : ℕ) (last : Range) (rs : List Range)
    → hi < 2 ^ 32 - 1
    → Chain lo hi (last ∷ rs)
    → last.right < i
    → i ≤ hi
    → is_free i rs ≡ false
    → Chain lo hi (insert_after i last rs)
unfolding insert_after
insert_after-Chain lo hi i last [] small c past top free = ground arith
insert_after-Chain lo hi i last (node ∷ next) small c past top free =
    ground (arith, insert_after-Chain (last.right + 2) hi i node next small c.3)

insert_before-Chain :
    (lo hi i : ℕ) (node : Range) (rs : List Range)
    → hi < 2 ^ 32 - 1
    → Chain lo hi (node ∷ rs)
    → i < node.left
    → lo ≤ i
    → Chain lo hi (insert_before i node rs)
unfolding insert_before
insert_before-Chain lo hi i node rs small c below bottom = ground arith

-- Where the first range does not end below an index that is not free, it starts above it.
first_above :
    (i : ℕ) (r : Range) (rs : List Range)
    → is_free i (r ∷ rs) ≡ false
    → ltb r.right i ≡ false
    → i < r.left
first_above i r rs free past = ground arith

is_free_rest :
    (i : ℕ) (r : Range) (rs : List Range) → is_free i (r ∷ rs) ≡ false → is_free i rs ≡ false
is_free_rest i r rs free = ground arith

pub add_free_index-Chain :
    (lo hi i : ℕ) (rs : List Range)
    → hi < 2 ^ 32 - 1
    → Chain lo hi rs
    → lo ≤ i
    → i ≤ hi
    → is_free i rs ≡ false
    → Chain lo hi (add_free_index i rs)
unfolding add_free_index
add_free_index-Chain lo hi i [] small c bottom top free = omega arith
add_free_index-Chain lo hi i (r ∷ rs) small c bottom top free = elim (Bool-cases (ltb r.right i)) [
  | inl past ↦ rw past (
      insert_after-Chain lo hi i r rs small c (ltb→lt r.right i past) top
        (is_free_rest i r rs free))
  | inr past ↦
      rw past (insert_before-Chain lo hi i r rs small c (first_above i r rs free past) bottom)
]

insert_after-is_free :
    (lo hi i j : ℕ) (last : Range) (rs : List Range)
    → hi < 2 ^ 32 - 1
    → Chain lo hi (last ∷ rs)
    → last.right < i
    → i ≤ hi
    → is_free i rs ≡ false
    → is_free j (insert_after i last rs) ≡ (j == i || is_free j (last ∷ rs))
unfolding insert_after
insert_after-is_free lo hi i j last [] small c past top free = ground arith
insert_after-is_free lo hi i j last (node ∷ next) small c past top free =
    ground (arith, insert_after-is_free (last.right + 2) hi i j node next small c.3)

insert_before-is_free :
    (lo hi i j : ℕ) (node : Range) (rs : List Range)
    → hi < 2 ^ 32 - 1
    → Chain lo hi (node ∷ rs)
    → i < node.left
    → is_free j (insert_before i node rs) ≡ (j == i || is_free j (node ∷ rs))
unfolding insert_before
insert_before-is_free lo hi i j node rs small c below = ground arith

pub add_free_index-is_free :
    (lo hi i j : ℕ) (rs : List Range)
    → hi < 2 ^ 32 - 1
    → Chain lo hi rs
    → lo ≤ i
    → i ≤ hi
    → is_free i rs ≡ false
    → is_free j (add_free_index i rs) ≡ (j == i || is_free j rs)
unfolding add_free_index
add_free_index-is_free lo hi i j [] small c bottom top free = ground arith
add_free_index-is_free lo hi i j (r ∷ rs) small c bottom top free =
    elim (Bool-cases (ltb r.right i)) [
      | inl past ↦ rw past (
          insert_after-is_free lo hi i j r rs small c (ltb→lt r.right i past) top
            (is_free_rest i r rs free))
      | inr past ↦
          rw past (insert_before-is_free lo hi i j r rs small c (first_above i r rs free past))
    ]

-- The least free index is taken: it was free, none below it was, and the others stay as they are.
pub record Takes (lo hi : ℕ) (rs : List Range) (i : ℕ) (rs' : List Range) : Type 0 where
  pub bottom : lo ≤ i
  pub top : i ≤ hi
  pub free : is_free i rs ≡ true
  pub least : (j : ℕ) → j < i → is_free j rs ≡ false
  pub taken : is_free i rs' ≡ false
  pub others : (j : ℕ) → j ≢ i → is_free j rs' ≡ is_free j rs
  pub chain : Chain lo hi rs'

Takes-one :
    (lo hi i : ℕ) (rs : List Range)
    → Chain lo hi (range i i ∷ rs)
    → Takes lo hi (range i i ∷ rs) i rs
Takes-one lo hi i rs c = record {
  bottom = c.0;
  top = c.2;
  free = ground arith;
  least = λ j h. below-is_free i hi j (range i i ∷ rs) h (omega arith, omega arith, c.2, c.3);
  taken = below-is_free (i + 2) hi i rs (omega arith) c.3;
  others = λ j h. ground arith;
  chain = Chain-weaken (i + 2) lo hi rs (omega arith) c.3;
}

Takes-more :
    (lo hi l m : ℕ) (rs : List Range)
    → hi < 2 ^ 32 - 1
    → l < m
    → Chain lo hi (range l m ∷ rs)
    → Takes lo hi (range l m ∷ rs) l (range ((l + 1) % 2 ^ 32) m ∷ rs)
Takes-more lo hi l m rs small more c = record {
  bottom = c.0;
  top = omega arith;
  free = ground arith;
  least = λ j h. below-is_free l hi j (range l m ∷ rs) h (omega arith, omega arith, c.2, c.3);
  taken = ground (arith, below-is_free (m + 2) hi l rs (omega arith) c.3);
  others = λ j h. ground arith;
  chain = (omega arith, omega arith, c.2, c.3);
}

-- Nothing is given exactly when nothing is free.
abbrev pub Gives : ℕ → ℕ → List Range → Option (ℕ × List Range) → Type 0
Gives lo hi rs none = (j : ℕ) → is_free j rs ≡ false
Gives lo hi rs (some (i, rs')) = Takes lo hi rs i rs'

pub get_free_index-Gives :
    (lo hi : ℕ) (rs : List Range)
    → hi < 2 ^ 32 - 1
    → Chain lo hi rs
    → Gives lo hi rs (get_free_index rs)
unfolding get_free_index
get_free_index-Gives lo hi [] small c = λ j. refl
get_free_index-Gives lo hi (r ∷ rs) small c = elim (Bool-cases (r.left == r.right)) [
  | inl one ↦
      let same : r ≡ range r.left r.left = ground arith in
      rw one (rw same (Takes-one lo hi r.left rs (subst (λ q. Chain lo hi (q ∷ rs)) same c)))
  | inr more ↦ rw more (Takes-more lo hi r.left r.right rs small (ground arith) c)
]

-- What is taken and given back leaves the list as it was.
pub add_free_index-get_free_index :
    (lo hi : ℕ) (rs : List Range)
    → hi < 2 ^ 32 - 1
    → 1 ≤ lo
    → Chain lo hi rs
    → (i : ℕ) (rs' : List Range) → get_free_index rs ≡ some (i, rs')
    → add_free_index i rs' ≡ rs
unfolding get_free_index add_free_index insert_before
add_free_index-get_free_index lo hi [] small one c i rs' e = cc
add_free_index-get_free_index lo hi (r ∷ []) small one c i rs' e = ground arith
add_free_index-get_free_index lo hi (r ∷ s ∷ rs) small one c i rs' e = ground arith
