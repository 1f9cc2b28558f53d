-- ===== src/Database/Topology/Orphans.antt =====
-- What a refused node leaves in the topology.
use onldaemons.Prelude.{
  ℕ, ◌+◌, ◌<◌, ◌≡◌, refl, ap, sym, subst, ◌∙◌, Bool, true, false, Option, none, some, List, [], ◌∷◌,
  ◌++◌, ◌==◌, if◌then◌else◌, arith, All, ==_refl,
}
use onldaemons.Database.Topology.{
  NodeResource, Topology, Response, update, new_node, adopt, find_parent, finish_node, insert_node,
  add_node,
}
use onldaemons.Database.Topology.Lookup.{node_label}
use onldaemons.Database.Topology.Named.{used, used-agree}
use onldaemons.Database.Topology.Parents.{find_parent-true}
use onldaemons.Database.Topology.Adopt.{adopt-Keeps, labels_of, find_parent_lem}

pair_eq :
    (r : Option Bool × Topology) (o : Option Bool) (t : Topology) → r.0 ≡ o → r.1 ≡ t → r ≡ (o, t)
pair_eq (a, b) o t h k = ap (λ x. (x, b)) h ∙ ap (λ y. (o, y)) k

find_parent-first :
    (label child p : ℕ) (ns : List ℕ) (t : Topology)
    → (node_label t p == label) ≡ false
    → used (node_label t) label ns ≡ true
    → find_parent label (node_label t p) child (p ∷ ns) false t ≡ (none, adopt p child t)
unfolding find_parent
find_parent-first label child p ns t other u =
    let t' = adopt p child t in
    let e = labels_of t t' (adopt-Keeps true p child t).cores in
    let o =
      find_parent_lem label (node_label t p) child ns true t'
      ∙ ap (λ (f : ℕ → ℕ). if used f label ns then none else some true) e in
    rw other (
      rw (==_refl (node_label t p)) (
        pair_eq _ none t' (o ∙ ap (λ b. if b then none else some true) u)
          (find_parent-true label (node_label t p) child ns t')))

-- The label is refused, and the node that was made for it is a child of `p` all the same.
pub record Orphans (p label : ℕ) (t : Topology) (r : Response × Topology) : Type 0 where
  pub response : r.0 ≡ Response.already_used label
  pub nodes : r.1.nodes ≡ t.nodes
  pub is_parent : (r.1.node_at p).is_parent ≡ true
  pub node_children :
      (r.1.node_at p).node_children ≡ (t.node_at p).node_children ++ (t.next_node ∷ [])
  pub parent : (r.1.node_at t.next_node).parent ≡ some p

adopted-Orphans :
    (hrp : NodeResource) (t : Topology) (p label : ℕ)
    → p < t.next_node
    → Orphans p label t (
      Response.already_used label,
      adopt p t.next_node
          (record t { node_at = update t.node_at t.next_node hrp; next_node = t.next_node + 1 }),
    )
unfolding adopt
adopted-Orphans hrp t p label below =
    let old : (p == t.next_node) ≡ false = ground arith in
    let old' : (t.next_node == p) ≡ false = ground arith in
    record {
      response = refl;
      nodes = refl;
      is_parent = rw (==_refl p) refl;
      node_children = rw (==_refl p) (rw old refl);
      parent = rw old' (rw (==_refl t.next_node) refl);
    }

refused :
    (hrp : NodeResource) (t : Topology) (p : ℕ) (ns : List ℕ)
    → t.nodes ≡ p ∷ ns
    → p < t.next_node
    → All (λ n. n < t.next_node) ns
    → (node_label t p == 0) ≡ false
    → (node_label t p == hrp.label) ≡ false
    → used (node_label t) hrp.label ns ≡ true
    → insert_node hrp (node_label t p) t ≡ (
      Response.already_used hrp.label,
      adopt p t.next_node
          (record t { node_at = update t.node_at t.next_node hrp; next_node = t.next_node + 1 }),
    )
unfolding insert_node finish_node
refused hrp t p ns e below bs root other u =
    let a = record t { node_at = update t.node_at t.next_node hrp; next_node = t.next_node + 1 } in
    let old : (p == t.next_node) ≡ false = ground arith in
    let same : node_label a p ≡ node_label t p = rw (old, node_label) refl in
    let u' =
      used-agree (node_label t) (node_label a) t.next_node hrp.label ns bs
        (λ n h. let f : (n == t.next_node) ≡ false = ground arith in rw (f, node_label) refl)
      ∙ u in
    let first =
      find_parent-first hrp.label t.next_node p ns a (ap (λ m. m == hrp.label) same ∙ other) u' in
    let first' =
      ap (λ m. find_parent hrp.label m t.next_node (p ∷ ns) false a) (sym same) ∙ first in
    let whole =
      ap (λ ms. find_parent hrp.label (node_label t p) t.next_node ms false a) e ∙ first' in
    rw root (rw whole refl)

-- The first node of the topology is the parent of a new node whose label a later node has. Then
-- add_node refuses the node, since its label is used, and adds it to no list of the topology; but the
-- parent is marked as a parent and has the refused node among its children.
pub add_node-Orphans :
    (type : List ℕ) (label : ℕ) (has_vport : Bool) (cores mem num_interface interfacebw : ℕ)
    (ext_tag : List ℕ) (t : Topology) (p : ℕ) (ns : List ℕ)
    → t.nodes ≡ p ∷ ns
    → p < t.next_node
    → All (λ n. n < t.next_node) ns
    → (node_label t p == 0) ≡ false
    → (node_label t p == label) ≡ false
    → used (node_label t) label ns ≡ true
    → Orphans p label t (
        add_node type label
          (node_label t p)
          has_vport
          cores
          mem
          num_interface
          interfacebw
          ext_tag
          t)
unfolding add_node new_node
add_node-Orphans type label has_vport cores mem num_interface interfacebw ext_tag t p ns e below bs
      root other u =
    subst (Orphans p label t)
      (sym (
        refused (new_node type label has_vport cores mem num_interface interfacebw ext_tag) t p ns e
          below bs root other u))
      (adopted-Orphans _ t p label below)
