-- ===== src/Database/Topology/Named.antt =====
-- Lists of addresses with labels: which labels are used, and what is found under a label.
use onldaemons.Prelude.{
  ℕ, ◌+◌, ◌≤◌, ◌<◌, ◌≡◌, refl, ◌∙◌, Bool, true, false, ◌||◌, Option, none, some, List, [], ◌∷◌,
  ◌++◌, ◌==◌, if◌then◌else◌, arith, All, subst, Bool-cases, inl, inr,
}
use onldaemons.Database.Topology.Links.{erase}
use onldaemons.Database.Topology.Lookup.{at_label}

abbrev pub used : (ℕ → ℕ) → (label : ℕ) → List ℕ → Bool
used label_of label [] = false
used label_of label (n ∷ ns) = label_of n == label || used label_of label ns

-- No label twice.
abbrev pub Distinct : (ℕ → ℕ) → List ℕ → Type 0
Distinct label_of [] = Unit
Distinct label_of (n ∷ ns) = (used label_of (label_of n) ns ≡ false) × Distinct label_of ns

used-append :
    (label_of : ℕ → ℕ) (label n : ℕ) (ns : List ℕ)
    → used label_of label (ns ++ (n ∷ [])) ≡ (used label_of label ns || label_of n == label)
used-append label_of label n [] = ground arith
used-append label_of label n (m ∷ ns) = ground (arith, used-append label_of label n ns)

pub Distinct-append :
    (label_of : ℕ → ℕ) (n : ℕ) (ns : List ℕ)
    → used label_of (label_of n) ns ≡ false
    → Distinct label_of ns
    → Distinct label_of (ns ++ (n ∷ []))
Distinct-append label_of n [] f d = (refl, tt)
Distinct-append label_of n (m ∷ ns) f d = (
  ground (arith, used-append label_of (label_of m) n ns),
  Distinct-append label_of n ns (ground arith) d.1,
)

module _ {A : Type 0} (label_of : ℕ → ℕ) (f : ℕ → A) where
  pub at_label-append :
      (label n : ℕ) (ns : List ℕ) (a : A)
      → used label_of (label_of n) ns ≡ false
      → at_label label_of f label (ns ++ (n ∷ [])) a
        ≡ (if label_of n == label then f n else at_label label_of f label ns a)
  unfolding at_label
  at_label-append label n [] a free = refl
  at_label-append label n (m ∷ ns) a free = ground (arith, at_label-append label n ns a)

  pub at_label-unused :
      (label : ℕ) (ns : List ℕ) (a : A)
      → used label_of label ns ≡ false
      → at_label label_of f label ns a ≡ a
  unfolding at_label
  at_label-unused label [] a free = refl
  at_label-unused label (m ∷ ns) a free = ground (arith, at_label-unused label ns a)

  -- Addresses below `k`, on which another naming agrees.
  pub at_label-agree :
      (label_of' : ℕ → ℕ) (f' : ℕ → A) (k label : ℕ) (ns : List ℕ) (a : A)
      → All (λ n. n < k) ns
      → ((n : ℕ) → n < k → label_of' n ≡ label_of n)
      → ((n : ℕ) → n < k → f' n ≡ f n)
      → at_label label_of' f' label ns a ≡ at_label label_of f label ns a
  unfolding at_label
  at_label-agree label_of' f' k label [] a w h g = refl
  at_label-agree label_of' f' k label (n ∷ ns) a w h g =
      rw (h n w.0) (rw (g n w.0) (rw (at_label-agree label_of' f' k label ns a w.1 h g) refl))

pub used-agree :
    (label_of label_of' : ℕ → ℕ) (k label : ℕ) (ns : List ℕ)
    → All (λ n. n < k) ns
    → ((n : ℕ) → n < k → label_of' n ≡ label_of n)
    → used label_of' label ns ≡ used label_of label ns
used-agree label_of label_of' k label [] w h = refl
used-agree label_of label_of' k label (n ∷ ns) w h =
    rw (h n w.0) (rw (used-agree label_of label_of' k label ns w.1 h) refl)

pub Distinct-agree :
    (label_of label_of' : ℕ → ℕ) (k : ℕ) (ns : List ℕ)
    → All (λ n. n < k) ns
    → ((n : ℕ) → n < k → label_of' n ≡ label_of n)
    → Distinct label_of ns
    → Distinct label_of' ns
Distinct-agree label_of label_of' k [] w h d = tt
Distinct-agree label_of label_of' k (n ∷ ns) w h d = (
  rw (h n w.0) (used-agree label_of label_of' k (label_of n) ns w.1 h ∙ d.0),
  Distinct-agree label_of label_of' k ns w.1 h d.1,
)

pub All-lt-weaken : (k k' : ℕ) (ns : List ℕ) → k ≤ k' → All (λ n. n < k) ns → All (λ n. n < k') ns
All-lt-weaken k k' [] h w = tt
All-lt-weaken k k' (n ∷ ns) h w = (omega arith, All-lt-weaken k k' ns h w.1)

pub All-lt-snoc :
    (k : ℕ) (ns : List ℕ) → All (λ n. n < k) ns → All (λ n. n < k + 1) (ns ++ (k ∷ []))
All-lt-snoc k [] w = (omega arith, tt)
All-lt-snoc k (n ∷ ns) w = (omega arith, All-lt-snoc k ns w.1)

-- What erasing a label leaves.
abbrev pub Erases :
    {A : Type 0} → (ℕ → ℕ) → (ℕ → A) → (k label : ℕ) → List ℕ → A → Option (List ℕ) → Type 0
Erases label_of f k label ns a none = used label_of label ns ≡ false
Erases label_of f k label ns a (some ms) =
    (used label_of label ns ≡ true)
    × All (λ n. n < k) ms
    × Distinct label_of ms
    × ((l : ℕ) → used label_of l ns ≡ false → used label_of l ms ≡ false)
    × ((l : ℕ)
        → at_label label_of f l ms a ≡ (if l == label then a else at_label label_of f l ns a))

cons_erased :
    {A : Type 0} (label_of : ℕ → ℕ) (f : ℕ → A) (k label n : ℕ) (ns : List ℕ) (a : A)
    (o : Option (List ℕ))
    → n < k
    → (label_of n == label) ≡ false
    → used label_of (label_of n) ns ≡ false
    → Erases label_of f k label ns a o
    → Erases label_of f k label (n ∷ ns) a (elim o [ none ↦ none | some rest ↦ some (n ∷ rest) ])
unfolding at_label
cons_erased label_of f k label n ns a none below other free e = ground arith
cons_erased label_of f k label n ns a (some ms) below other free (u, w, d, s, g) = (
  ground arith,
  (below, w),
  (s (label_of n) free, d),
  λ l h. ground (arith, s l),
  λ l. ground (arith, g l),
)

erased_law :
    {A : Type 0} (label_of : ℕ → ℕ) (f : ℕ → A) (label n : ℕ) (ns : List ℕ) (a : A) (l : ℕ)
    → (label_of n == label) ≡ true
    → used label_of (label_of n) ns ≡ false
    → at_label label_of f l ns a ≡ (if l == label then a else at_label label_of f l (n ∷ ns) a)
unfolding at_label
erased_law label_of f label n ns a l hit free = elim (Bool-cases (l == label)) [
  | inl same ↦
      let e : label_of n ≡ l = ground arith in
      rw same (at_label-unused label_of f l ns a (subst (λ m. used label_of m ns ≡ false) e free))
  | inr other ↦ let e : (label_of n == l) ≡ false = ground arith in rw other (rw e refl)
]

pub erase-Erases :
    {A : Type 0} (label_of : ℕ → ℕ) (f : ℕ → A) (k label : ℕ) (ns : List ℕ) (a : A)
    → All (λ n. n < k) ns
    → Distinct label_of ns
    → Erases label_of f k label ns a (erase label_of label ns)
unfolding erase at_label
erase-Erases label_of f k label [] a w d = refl
erase-Erases label_of f k label (n ∷ ns) a w d = elim (Bool-cases (label_of n == label)) [
  | inl hit ↦ rw hit (
    ground arith,
    w.1,
    d.1,
    λ l h. ground arith,
    λ l. erased_law label_of f label n ns a l hit d.0,
  )
  | inr other ↦ rw other (
      cons_erased label_of f k label n ns a _ w.0 other d.0
        (erase-Erases label_of f k label ns a w.1 d.1))
]
