-- ===== src/Npr/FreeList/Holders.antt =====
-- A table of indexes over time: an index is taken for an entry of the TCAM, held while the entry is
-- there, and given back once.
use onldaemons.Prelude.{
  ℕ, ◌+◌, ◌-◌, ◌^◌, ◌≤◌, ◌<◌, ◌≡◌, List, [], ◌∷◌, none, some, true, false, ◌&&◌, leb, ◌==◌,
  if◌then◌else◌, arith, Bool-cases, inl, inr, subst, sym,
}
use onldaemons.Npr.FreeList.{Range, range, get_free_index, add_free_index}
use onldaemons.Npr.FreeList.Chain.{
  Chain, is_free, Takes, Gives, get_free_index-Gives, add_free_index-Chain, add_free_index-is_free,
}

pub record Pool : Type 0 where
  pub free : List Range
  pub held : List ℕ

abbrev pub count : ℕ → List ℕ → ℕ
count j [] = 0
count j (i ∷ held) = (if j == i then 1 else 0) + count j held

abbrev pub remove : ℕ → List ℕ → List ℕ
remove j [] = []
remove j (i ∷ held) = if j == i then held else i ∷ remove j held

pub data Step : Pool → Pool → Type 0 where
  take :
      (p : Pool) (i : ℕ) (free : List Range)
      → get_free_index p.free ≡ some (i, free)
      → Step p (record { free = free; held = i ∷ p.held })
  give :
      (p : Pool) (i : ℕ)
      → 0 < count i p.held
      → Step p (record { free = add_free_index i p.free; held = remove i p.held })

pub data Reach (p : Pool) : Pool → Type 0 where
  here : Reach p p
  next : {q r : Pool} → Reach p q → Step q r → Reach p r

-- Each index from `lo` to `hi` is free or held by one entry, and not both.
pub record IsExact (lo hi : ℕ) (p : Pool) : Type 0 where
  pub chain : Chain lo hi p.free
  pub once :
      (j : ℕ)
      → (if is_free j p.free then 1 else 0) + count j p.held
        ≡ (if leb lo j && leb j hi then 1 else 0)

count-remove :
    (i j : ℕ) (held : List ℕ)
    → 0 < count i held
    → count j held ≡ (if j == i then 1 else 0) + count j (remove i held)
count-remove i j [] h = absurd (omega arith)
count-remove i j (k ∷ held) h = ground (arith, count-remove i j held)

-- What is held is not free, and lies in the range of the table.
held_facts :
    (lo hi i : ℕ) (p : Pool)
    → IsExact lo hi p
    → 0 < count i p.held
    → (lo ≤ i) × (i ≤ hi) × (is_free i p.free ≡ false) × (count i p.held ≡ 1)
held_facts lo hi i p w h =
    let e = w.once i in (ground arith, ground arith, ground arith, ground arith)

take-once :
    (lo hi i j : ℕ) (p : Pool) (free : List Range)
    → IsExact lo hi p
    → Takes lo hi p.free i free
    → (if is_free j free then 1 else 0) + ((if j == i then 1 else 0) + count j p.held)
      ≡ (if leb lo j && leb j hi then 1 else 0)
take-once lo hi i j p free w t = elim (Bool-cases (j == i)) [
  | inl same ↦
      let e : j ≡ i = ground arith in
      let a = w.once j in
      let b : is_free j free ≡ false = subst (λ k. is_free k free ≡ false) (sym e) t.taken in
      let c : is_free j p.free ≡ true = subst (λ k. is_free k p.free ≡ true) (sym e) t.free in
      ground arith
  | inr other ↦ let a = w.once j in let b = t.others j (ground arith) in ground arith
]

Step-IsExact :
    (lo hi : ℕ) → hi < 2 ^ 32 - 1 → {p q : Pool} → Step p q → IsExact lo hi p → IsExact lo hi q
Step-IsExact lo hi small (take p i free e) w =
    let t : Takes lo hi p.free i free =
      subst (Gives lo hi p.free) e (get_free_index-Gives lo hi p.free small w.chain) in
    record { chain = t.chain; once = λ j. take-once lo hi i j p free w t }
Step-IsExact lo hi small (give p i h) w =
    let (bottom, top, free, one) = held_facts lo hi i p w h in
    record {
      chain = add_free_index-Chain lo hi i p.free small w.chain bottom top free;
      once = λ j.
          let a = w.once j in
          let b = add_free_index-is_free lo hi i j p.free small w.chain bottom top free in
          let c = count-remove i j p.held h in rw b (ground arith);
    }

abbrev pub whole : ℕ → ℕ → Pool
whole lo hi = record { free = range lo hi ∷ []; held = [] }

whole-IsExact : (lo hi : ℕ) → lo ≤ hi → IsExact lo hi (whole lo hi)
whole-IsExact lo hi h = record {
  chain = (omega arith, h, omega arith, tt);
  once = λ j. ground arith;
}

-- A table starts with the free range from lo to hi, where hi is below 2 ^ 32 - 1. Over any history of
-- taking indexes, each kept until it is given back once, the free list stays in order, every index from
-- lo to hi is either free or held by exactly one entry, and no other index is free or held.
pub Reach-IsExact :
    (lo hi : ℕ) → lo ≤ hi → hi < 2 ^ 32 - 1 → {p : Pool} → Reach (whole lo hi) p → IsExact lo hi p
Reach-IsExact lo hi h small here = whole-IsExact lo hi h
Reach-IsExact lo hi h small (next r s) = Step-IsExact lo hi small s (Reach-IsExact lo hi h small r)

-- In such a history an index is refused only when entries hold all those of the table.
pub get_free_index-none :
    (lo hi : ℕ)
    → lo ≤ hi
    → hi < 2 ^ 32 - 1
    → {p : Pool} → Reach (whole lo hi) p
    → get_free_index p.free ≡ none
    → (j : ℕ) → lo ≤ j
    → j ≤ hi
    → count j p.held ≡ 1
get_free_index-none lo hi h small {p} r e j a b =
    let w = Reach-IsExact lo hi h small r in
    let none_free =
      subst (Gives lo hi p.free) e (get_free_index-Gives lo hi p.free small w.chain) in
    let f = none_free j in let o = w.once j in ground arith
