-- ===== src/Database/Topology/Adopt.antt =====
-- The nodes of a topology as a map from labels; adopting a child keeps it.
use onldaemons.Prelude.{
  ℕ, ◌<◌, ◌≡◌, refl, ap, fun_ext, ◌∙◌, Bool, true, false, not, ◌&&◌, ◌||◌, Option, none, some, List,
  [], ◌∷◌, ◌==◌, if◌then◌else◌, arith, All, Bool-cases, inl, inr,
}
use onldaemons.Database.Topology.{NodeResource, Topology, adopt, find_parent}
use onldaemons.Database.Topology.Lookup.{at_label, node_label, link_label}
use onldaemons.Database.Topology.Named.{used, Distinct}

-- A node without what its place in the topology gives it: its parent, children and links.
abbrev pub core : NodeResource → NodeResource
core r = record r { is_parent = false; parent = none; node_children = []; links = [] }

abbrev pub core_at : Topology → ℕ → NodeResource
core_at t n = core (t.node_at n)

-- What stands under a label.
abbrev pub find_core : (label : ℕ) → Topology → Option NodeResource
find_core label t = at_label (node_label t) (λ n. some (core_at t n)) label t.nodes none

pub record IsIndexed (t : Topology) : Type 0 where
  pub nodes_below : All (λ n. n < t.next_node) t.nodes
  pub links_below : All (λ l. l < t.next_link) t.links
  pub nodes_distinct : Distinct (node_label t) t.nodes
  pub links_distinct : Distinct (link_label t) t.links

-- Adopting a child changes no list of the topology and no node's core.
pub record Keeps (t t' : Topology) : Type 0 where
  pub cores : core_at t' ≡ core_at t
  pub links_at : t'.link_at ≡ t.link_at
  pub next_node : t'.next_node ≡ t.next_node
  pub next_link : t'.next_link ≡ t.next_link
  pub nodes : t'.nodes ≡ t.nodes
  pub links : t'.links ≡ t.links

pub Keeps-refl : (t : Topology) → Keeps t t
Keeps-refl t = record {
  cores = refl;
  links_at = refl;
  next_node = refl;
  next_link = refl;
  nodes = refl;
  links = refl;
}

Keeps-trans : (t t' t'' : Topology) → Keeps t t' → Keeps t' t'' → Keeps t t''
Keeps-trans t t' t'' h k = record {
  cores = k.cores ∙ h.cores;
  links_at = k.links_at ∙ h.links_at;
  next_node = k.next_node ∙ h.next_node;
  next_link = k.next_link ∙ h.next_link;
  nodes = k.nodes ∙ h.nodes;
  links = k.links ∙ h.links;
}

adopt-core : (p c : ℕ) (t : Topology) (m : ℕ) → core_at (adopt p c t) m ≡ core_at t m
unfolding adopt
adopt-core p c t m = ground arith

pub adopt-Keeps : (b : Bool) (p c : ℕ) (t : Topology) → Keeps t (if b then adopt p c t else t)
unfolding adopt
adopt-Keeps false p c t = Keeps-refl t
adopt-Keeps true p c t = record {
  cores = fun_ext (adopt-core p c t);
  links_at = refl;
  next_node = refl;
  next_link = refl;
  nodes = refl;
  links = refl;
}

pub find_parent-Keeps :
    (label parent_label child : ℕ) (ns : List ℕ) (parent_found : Bool) (t : Topology)
    → Keeps t (find_parent label parent_label child ns parent_found t).1
unfolding find_parent
find_parent-Keeps label parent_label child [] parent_found t = Keeps-refl t
find_parent-Keeps label parent_label child (n ∷ ns) parent_found t =
    let hit = not parent_found && (t.node_at n).label == parent_label in
    let t' = if hit then adopt n child t else t in
    elim (Bool-cases ((t.node_at n).label == label)) [
      | inl e ↦ rw e (Keeps-refl t)
      | inr e ↦ rw e (
          Keeps-trans t t' _ (adopt-Keeps hit n child t)
            (find_parent-Keeps label parent_label child ns (parent_found || hit) t'))
    ]

-- What the loop finds out: whether the label is used, and else whether the parent's is.
abbrev pub outcome : (label parent_label : ℕ) → List ℕ → Bool → Topology → Option Bool
outcome label parent_label ns parent_found t =
    if used (node_label t) label ns
    then none
    else some (parent_found || used (node_label t) parent_label ns)

pub labels_of : (t t' : Topology) → core_at t' ≡ core_at t → node_label t' ≡ node_label t
labels_of t t' e = ap {B = ℕ → ℕ} (λ (c : ℕ → NodeResource) (n : ℕ). (c n).label) e

found_once : (p x u : Bool) → ((p || (not p && x)) || u) ≡ (p || (x || u))
found_once true x u = refl
found_once false x u = refl

pub find_parent_lem :
    (label parent_label child : ℕ) (ns : List ℕ) (parent_found : Bool) (t : Topology)
    → (find_parent label parent_label child ns parent_found t).0
      ≡ outcome label parent_label ns parent_found t
unfolding find_parent
find_parent_lem label parent_label child [] parent_found t = ground arith
find_parent_lem label parent_label child (n ∷ ns) parent_found t =
    let hit = not parent_found && (t.node_at n).label == parent_label in
    let t' = if hit then adopt n child t else t in
    let e = labels_of t t' (adopt-Keeps hit n child t).cores in
    let ih =
      find_parent_lem label parent_label child ns (parent_found || hit) t'
      ∙ ap
          (λ (f : ℕ → ℕ).
            if used f label ns
            then none
            else some ((parent_found || hit) || used f parent_label ns))
          e in
    elim (Bool-cases ((t.node_at n).label == label)) [
      | inl used_here ↦ rw used_here refl
      | inr elsewhere ↦ rw elsewhere (
          ih
          ∙ ap (λ b. if used (node_label t) label ns then none else some b)
              (found_once parent_found ((t.node_at n).label == parent_label)
                (used (node_label t) parent_label ns)))
    ]
