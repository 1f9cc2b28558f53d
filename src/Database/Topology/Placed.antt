-- ===== src/Database/Topology/Placed.antt =====
-- A new node's place: its parent, and what add_node and add_copy_node leave of everything else.
use onldaemons.Prelude.{
  ℕ, ◌<◌, ◌≡◌, refl, ap, sym, subst, ◌∙◌, Bool, true, false, Option, none, some, [], ◌∷◌, ◌++◌,
  ◌==◌, if◌then◌else◌, arith, All, Bool-cases, inl, inr, ==_refl,
}
use onldaemons.Database.Topology.{
  NodeResource, Topology, Response, adopt, find_parent, finish_node, insert_node,
}
use onldaemons.Database.Topology.Lookup.{node_label}
use onldaemons.Database.Topology.Adopt.{IsIndexed}
use onldaemons.Database.Topology.Parents.{
  find_parent-true, first_parent, adopt_if, find_parent-first_parent, with_child, adopt-old,
  adopt-new, first_parent-agree, first_parent-below,
}
use onldaemons.Database.Topology.Nodes.{succeeds, allocated}

-- The node that adopts the new one, if its parent's label is not 0.
abbrev pub adopter : (label parent_label : ℕ) → Topology → Option ℕ
adopter label parent_label t =
    if parent_label == 0 then none else first_parent (node_label t) label parent_label t.nodes

pub record Placed (hrp : NodeResource) (parent_label : ℕ) (t : Topology) (r : Response × Topology)
    : Type 0 where
  pub old :
      (n : ℕ)
      → n < t.next_node
      → r.1.node_at n ≡ with_child (adopter hrp.label parent_label t) t.next_node n (t.node_at n)
  pub new : r.1.node_at t.next_node ≡ record hrp { parent = adopter hrp.label parent_label t }
  pub nodes : r.1.nodes ≡ (if succeeds r.0 then t.nodes ++ (t.next_node ∷ []) else t.nodes)
  pub links : r.1.links ≡ t.links
  pub link_at : r.1.link_at ≡ t.link_at

placed :
    (hrp : NodeResource) (parent_label : ℕ) (t t' : Topology) (o : Option Bool)
    → ((n : ℕ)
        → n < t.next_node
        → t'.node_at n ≡ with_child (adopter hrp.label parent_label t) t.next_node n (t.node_at n))
    → t'.node_at t.next_node ≡ record hrp { parent = adopter hrp.label parent_label t }
    → t'.nodes ≡ t.nodes
    → t'.links ≡ t.links
    → t'.link_at ≡ t.link_at
    → Placed hrp parent_label t (finish_node hrp.label parent_label t.next_node (o, t'))
unfolding finish_node
placed hrp parent_label t t' none f g ns ls l = record {
  old = f;
  new = g;
  nodes = ns;
  links = ls;
  link_at = l;
}
placed hrp parent_label t t' (some false) f g ns ls l = record {
  old = f;
  new = g;
  nodes = ns;
  links = ls;
  link_at = l;
}
placed hrp parent_label t t' (some true) f g ns ls l = record {
  old = f;
  new = g;
  nodes = ap (λ ms. ms ++ (t.next_node ∷ [])) ns;
  links = ls;
  link_at = l;
}

module _ (hrp : NodeResource) (t : Topology) where
  old_stored : (n : ℕ) → n < t.next_node → (allocated hrp t).node_at n ≡ t.node_at n
  old_stored n h = let e : (n == t.next_node) ≡ false = ground arith in rw e refl

  new_stored : (allocated hrp t).node_at t.next_node ≡ hrp
  new_stored = rw (==_refl t.next_node) refl

  adopted-old :
      (o : Option ℕ) (n : ℕ)
      → ((p : ℕ) → o ≡ some p → p < t.next_node)
      → n < t.next_node
      → (adopt_if o t.next_node (allocated hrp t)).node_at n
        ≡ with_child o t.next_node n (t.node_at n)
  unfolding adopt_if
  adopted-old none n below h = old_stored n h
  adopted-old (some p) n below h =
      let low = below p refl in
      adopt-old p t.next_node n (allocated hrp t) (ground arith) (ground arith)
      ∙ ap (with_child (some p) t.next_node n) (old_stored n h)

  adopted-new :
      (o : Option ℕ)
      → hrp.parent ≡ none
      → ((p : ℕ) → o ≡ some p → p < t.next_node)
      → (adopt_if o t.next_node (allocated hrp t)).node_at t.next_node ≡ record hrp { parent = o }
  unfolding adopt_if
  adopted-new none orphan below = new_stored ∙ ap (λ o. record hrp { parent = o }) orphan
  adopted-new (some p) orphan below =
      let low = below p refl in
      adopt-new p t.next_node (allocated hrp t) (ground arith)
      ∙ ap (λ (r : NodeResource). record r { parent = some p }) new_stored

adopt_if-lists :
    (o : Option ℕ) (child : ℕ) (t : Topology)
    → ((adopt_if o child t).nodes ≡ t.nodes)
      × ((adopt_if o child t).links ≡ t.links)
      × ((adopt_if o child t).link_at ≡ t.link_at)
unfolding adopt_if adopt
adopt_if-lists none child t = (refl, refl, refl)
adopt_if-lists (some p) child t = (refl, refl, refl)

finish_node-Placed :
    (hrp : NodeResource) (parent_label : ℕ) (t t' : Topology) (o : Option Bool)
    → hrp.parent ≡ none
    → ((p : ℕ) → adopter hrp.label parent_label t ≡ some p → p < t.next_node)
    → t' ≡ adopt_if (adopter hrp.label parent_label t) t.next_node (allocated hrp t)
    → Placed hrp parent_label t (finish_node hrp.label parent_label t.next_node (o, t'))
finish_node-Placed hrp parent_label t t' o orphan below e =
    let a = adopter hrp.label parent_label t in
    let lists = adopt_if-lists a t.next_node (allocated hrp t) in
    subst (λ s. Placed hrp parent_label t (finish_node hrp.label parent_label t.next_node (o, s)))
      (sym e)
      (placed hrp parent_label t _ o (λ n h. adopted-old hrp t a n below h)
        (adopted-new hrp t a orphan below) lists.0 lists.1 lists.2)

-- The loop leaves what the adopter's adoption leaves.
loop-adopts :
    (hrp : NodeResource) (parent_label : ℕ) (t : Topology)
    → All (λ n. n < t.next_node) t.nodes
    → (find_parent hrp.label parent_label t.next_node t.nodes
        (parent_label == 0)
        (allocated hrp t)).1
      ≡ adopt_if (adopter hrp.label parent_label t) t.next_node (allocated hrp t)
unfolding adopt_if
loop-adopts hrp parent_label t w = elim (Bool-cases (parent_label == 0)) [
  | inl e ↦ rw e (find_parent-true hrp.label parent_label t.next_node t.nodes (allocated hrp t))
  | inr e ↦
      let agree =
        first_parent-agree (node_label t) (node_label (allocated hrp t)) t.next_node hrp.label
          parent_label t.nodes w
          (λ n h. ap (λ (r : NodeResource). r.label) (old_stored hrp t n h)) in
      rw e (
        find_parent-first_parent hrp.label parent_label t.next_node t.nodes (allocated hrp t)
        ∙ ap (λ o. adopt_if o t.next_node (allocated hrp t)) agree)
]

pub insert_node-Placed :
    (hrp : NodeResource) (parent_label : ℕ) (t : Topology)
    → hrp.parent ≡ none
    → IsIndexed t
    → Placed hrp parent_label t (insert_node hrp parent_label t)
unfolding insert_node
insert_node-Placed hrp parent_label t orphan w =
    let r =
      find_parent hrp.label parent_label t.next_node t.nodes (parent_label == 0)
        (allocated hrp t) in
    finish_node-Placed hrp parent_label t r.1 r.0 orphan
      (λ p e. elim (Bool-cases (parent_label == 0)) [
        | inl z ↦ absurd (
            let none_there : adopter hrp.label parent_label t ≡ none = rw z refl in
            cc (none_there, e))
        | inr z ↦
            let here : adopter hrp.label parent_label t
                ≡ first_parent (node_label t) hrp.label parent_label t.nodes =
              rw z refl in
            first_parent-below (node_label t) t.next_node hrp.label parent_label p t.nodes
              w.nodes_below (sym here ∙ e)
      ])
      (loop-adopts hrp parent_label t w.nodes_below)
