-- ===== src/Database/Topology/Parents.antt =====
-- Which node of the topology adopts a new one, and what it is afterwards.
use onldaemons.Prelude.{
  ℕ, ◌<◌, ◌≡◌, refl, ap, true, false, Option, none, some, List, [], ◌∷◌, ◌++◌, ◌==◌, if◌then◌else◌,
  arith, All, Bool-cases, inl, inr, ==_refl,
}
use onldaemons.Database.Topology.{NodeResource, Topology, adopt, find_parent}
use onldaemons.Database.Topology.Lookup.{node_label}

-- Once the parent is found, the loop changes nothing.
pub find_parent-true :
    (label parent_label child : ℕ) (ns : List ℕ) (t : Topology)
    → (find_parent label parent_label child ns true t).1 ≡ t
unfolding find_parent
find_parent-true label parent_label child [] t = refl
find_parent-true label parent_label child (n ∷ ns) t =
    elim (Bool-cases ((t.node_at n).label == label)) [
      | inl e ↦ rw e refl
      | inr e ↦ rw e (find_parent-true label parent_label child ns t)
    ]

-- The first node of the parent's label, unless a node of the new label stands before it.
abbrev pub first_parent : (ℕ → ℕ) → (label parent_label : ℕ) → List ℕ → Option ℕ
first_parent label_of label parent_label [] = none
first_parent label_of label parent_label (n ∷ ns) =
    if label_of n == label
    then none
    else if label_of n == parent_label
    then some n
    else first_parent label_of label parent_label ns

unfoldable pub adopt_if : Option ℕ → ℕ → Topology → Topology
adopt_if none child t = t
adopt_if (some p) child t = adopt p child t

pub find_parent-first_parent :
    (label parent_label child : ℕ) (ns : List ℕ) (t : Topology)
    → (find_parent label parent_label child ns false t).1
      ≡ adopt_if (first_parent (node_label t) label parent_label ns) child t
unfolding find_parent adopt_if
find_parent-first_parent label parent_label child [] t = refl
find_parent-first_parent label parent_label child (n ∷ ns) t =
    elim (Bool-cases ((t.node_at n).label == label)) [
      | inl e ↦ rw e refl
      | inr e ↦ elim (Bool-cases ((t.node_at n).label == parent_label)) [
        | inl p ↦ rw (e, p) (find_parent-true label parent_label child ns (adopt n child t))
        | inr p ↦ rw (e, p) (find_parent-first_parent label parent_label child ns t)
      ]
    ]

-- What adopting the child makes of a node that was there.
abbrev pub with_child : Option ℕ → (child n : ℕ) → NodeResource → NodeResource
with_child none child n r = r
with_child (some p) child n r =
    if n == p
    then record r { is_parent = true; node_children = r.node_children ++ (child ∷ []) }
    else r

pub adopt-old :
    (p child n : ℕ) (t : Topology)
    → (n == child) ≡ false
    → (p == child) ≡ false
    → (adopt p child t).node_at n ≡ with_child (some p) child n (t.node_at n)
unfolding adopt
adopt-old p child n t new old = elim (Bool-cases (n == p)) [
  | inl e ↦
      let same : p ≡ n = ground arith in
      rw (e, old)
        (ap
          (λ j. record (t.node_at j) {
            is_parent = true;
            node_children = (t.node_at j).node_children ++ (child ∷ []);
          })
          same)
  | inr e ↦ rw (e, new) refl
]

pub adopt-new :
    (p child : ℕ) (t : Topology)
    → (p == child) ≡ false
    → (adopt p child t).node_at child ≡ record (t.node_at child) { parent = some p }
unfolding adopt
adopt-new p child t old =
    let old' : (child == p) ≡ false = ground arith in rw old' (rw (==_refl child) refl)

pub first_parent-agree :
    (f g : ℕ → ℕ) (k label parent_label : ℕ) (ns : List ℕ)
    → All (λ n. n < k) ns
    → ((n : ℕ) → n < k → g n ≡ f n)
    → first_parent g label parent_label ns ≡ first_parent f label parent_label ns
first_parent-agree f g k label parent_label [] w e = refl
first_parent-agree f g k label parent_label (n ∷ ns) w e =
    let rest = first_parent-agree f g k label parent_label ns w.1 e in rw (e n w.0, rest) refl

pub first_parent-below :
    (f : ℕ → ℕ) (k label parent_label p : ℕ) (ns : List ℕ)
    → All (λ n. n < k) ns
    → first_parent f label parent_label ns ≡ some p
    → p < k
first_parent-below f k label parent_label p [] w e = absurd (cc e)
first_parent-below f k label parent_label p (n ∷ ns) w e =
    ground (arith, first_parent-below f k label parent_label p ns w.1)
