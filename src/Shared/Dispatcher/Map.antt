-- ===== src/Shared/Dispatcher/Map.antt =====
-- The laws of the marker map, and which markers are fresh.
use onldaemons.Prelude.{
  ℕ, ◌<◌, ◌≤◌, ◌≡◌, ◌↔◌, ap, refl, true, none, some, [], ◌∷◌, if◌then◌else◌, arith, Bool-cases, inl,
  inr,
}
use onldaemons.Shared.Rendezvous.{Rendezvous}
use onldaemons.Shared.Dispatcher.{RendMap, equivalent, find, assign, erase}

-- Two markers are one key exactly when they agree in both leading fields.
pub equivalent_iff :
    (a b : Rendezvous) → (equivalent a b ≡ true) ↔ ((a.id ≡ b.id) × (a.seq ≡ b.seq))
unfolding equivalent
equivalent_iff a b = ground arith

pub find-assign :
    (k j : Rendezvous) (r : ℕ) (m : RendMap)
    → find j (assign k r m) ≡ (if equivalent k j then some r else find j m)
unfolding find assign
find-assign k j r [] = refl
find-assign k j r ((i, s) ∷ m) =
    ground (arith, equivalent_iff k j, equivalent_iff i k, equivalent_iff i j, find-assign k j r m)

pub find-erase :
    (k j : Rendezvous) (m : RendMap)
    → find j (erase k m) ≡ (if equivalent k j then none else find j m)
unfolding find erase
find-erase k j [] = ground arith
find-erase k j ((i, s) ∷ m) =
    ground (arith, equivalent_iff k j, equivalent_iff i k, equivalent_iff i j, find-erase k j m)

-- Every key has a sequence number below the next one of its operation.
abbrev pub Below : (ℕ → ℕ) → RendMap → Type 0
Below next [] = Unit {0}
Below next ((j, s) ∷ m) = (j.seq < next j.id) × Below next m

pub find_above :
    (next : ℕ → ℕ) (k : Rendezvous) (m : RendMap)
    → Below next m
    → next k.id ≤ k.seq
    → find k m ≡ none
unfolding find
find_above next k [] b h = refl
find_above next k ((j, s) ∷ m) b h = elim (Bool-cases (equivalent j k)) [
  | inl e ↦
      let same = (equivalent_iff j k).0 e in
      let low = b.0 in absurd (omega (arith, same.1, ap next same.0))
  | inr e ↦ rw e (find_above next k m b.1 h)
]

pub erase-Below :
    (next : ℕ → ℕ) (k : Rendezvous) (m : RendMap) → Below next m → Below next (erase k m)
unfolding erase
erase-Below next k [] b = tt
erase-Below next k ((j, s) ∷ m) b = ground (arith, erase-Below next k m b.1)

pub assign-Below :
    (next : ℕ → ℕ) (k : Rendezvous) (r : ℕ) (m : RendMap)
    → Below next m
    → k.seq < next k.id
    → Below next (assign k r m)
unfolding assign
assign-Below next k r [] b h = (h, tt)
assign-Below next k r ((j, s) ∷ m) b h = ground (arith, assign-Below next k r m b.1 h)

pub Below-mono :
    (next next' : ℕ → ℕ) (m : RendMap) → ((i : ℕ) → next i ≤ next' i) → Below next m → Below next' m
Below-mono next next' [] h b = tt
Below-mono next next' ((j, s) ∷ m) h b =
    let low = b.0 in (omega (arith, h j.id), Below-mono next next' m h b.1)
