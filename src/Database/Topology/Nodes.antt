-- ===== src/Database/Topology/Nodes.antt =====
-- A new node: what add_node and add_copy_node do to the map of nodes.
use onldaemons.Prelude.{
  ℕ, ◌+◌, ◌<◌, ◌≡◌, refl, ap, sym, subst, ◌∙◌, Bool, true, false, ◌&&◌, ◌||◌, Option, none, some,
  [], ◌∷◌, ◌++◌, ◌==◌, if◌then◌else◌, arith, All, ==_refl,
}
use onldaemons.Database.Topology.{
  NodeResource, LinkResource, Topology, Response, update, find_parent, finish_node, insert_node,
}
use onldaemons.Database.Topology.Lookup.{at_label, node_label, link_label}
use onldaemons.Database.Topology.Named.{
  used, Distinct, Distinct-append, at_label-append, at_label-agree, used-agree, Distinct-agree,
  All-lt-weaken, All-lt-snoc,
}
use onldaemons.Database.Topology.Adopt.{
  core, core_at, find_core, IsIndexed, Keeps, find_parent-Keeps, outcome, find_parent_lem,
}

-- The new node is in the store, and in no list yet.
abbrev pub allocated : NodeResource → Topology → Topology
allocated hrp t = record t {
  node_at = update t.node_at t.next_node hrp;
  next_node = t.next_node + 1;
}

below-ne : (n k : ℕ) → n < k → (n == k) ≡ false
below-ne n k h = ground arith

allocated-core :
    (hrp : NodeResource) (t : Topology) (n : ℕ)
    → n < t.next_node
    → core_at (allocated hrp t) n ≡ core_at t n
allocated-core hrp t n h = rw (below-ne n t.next_node h) refl

-- The store after the loop, in the old one's terms.
module _ (hrp : NodeResource) (t t' : Topology) (k : Keeps (allocated hrp t) t') where
  after-core : (n : ℕ) → n < t.next_node → core_at t' n ≡ core_at t n
  after-core n h = ap (λ (f : ℕ → NodeResource). f n) k.cores ∙ allocated-core hrp t n h

  after-label : (n : ℕ) → n < t.next_node → node_label t' n ≡ node_label t n
  after-label n h = ap (λ (r : NodeResource). r.label) (after-core n h)

  after-new : core_at t' t.next_node ≡ core hrp
  after-new = ap (λ (f : ℕ → NodeResource). f t.next_node) k.cores ∙ rw (==_refl t.next_node) refl

  after-find_core : (w : IsIndexed t) (label : ℕ) → find_core label t' ≡ find_core label t
  after-find_core w label =
      ap (λ ns. at_label (node_label t') (λ n. some (core_at t' n)) label ns none) k.nodes
      ∙ at_label-agree (node_label t) (λ n. some (core_at t n)) (node_label t')
          (λ n. some (core_at t' n)) t.next_node label t.nodes none w.nodes_below after-label
          (λ n h. ap some (after-core n h))

  below-after : IsIndexed t → All (λ n. n < t'.next_node) t.nodes
  below-after w =
      subst (λ m. All (λ n. n < m) t.nodes) (sym k.next_node)
        (All-lt-weaken t.next_node (t.next_node + 1) t.nodes (omega arith) w.nodes_below)

  Distinct-after : IsIndexed t → Distinct (node_label t') t.nodes
  Distinct-after w =
      Distinct-agree (node_label t) (node_label t') t.next_node t.nodes w.nodes_below after-label
        w.nodes_distinct

  links_below-after : IsIndexed t → All (λ l. l < t'.next_link) t'.links
  links_below-after w =
      subst (λ ls. All (λ l. l < t'.next_link) ls) (sym k.links)
        (subst (λ m. All (λ l. l < m) t.links) (sym k.next_link) w.links_below)

  links-Distinct-after : IsIndexed t → Distinct (link_label t') t'.links
  links-Distinct-after w =
      subst (λ ls. Distinct (link_label t') ls) (sym k.links)
        (subst (λ (f : ℕ → LinkResource). Distinct (λ l. (f l).label) t.links) (sym k.links_at)
          w.links_distinct)

  after-IsIndexed : IsIndexed t → IsIndexed t'
  after-IsIndexed w = record {
    nodes_below = subst (λ ns. All (λ n. n < t'.next_node) ns) (sym k.nodes) (below-after w);
    links_below = links_below-after w;
    nodes_distinct = subst (λ ns. Distinct (node_label t') ns) (sym k.nodes) (Distinct-after w);
    links_distinct = links-Distinct-after w;
  }

  abbrev pushed : Topology
  pushed = record t' { nodes = t'.nodes ++ (t.next_node ∷ []) }

  new-label : node_label t' t.next_node ≡ hrp.label
  new-label = ap (λ (r : NodeResource). r.label) after-new

  module _ (w : IsIndexed t) (free : used (node_label t) hrp.label t.nodes ≡ false) where
    new-free : used (node_label t') (node_label t' t.next_node) t.nodes ≡ false
    new-free =
        ap (λ l. used (node_label t') l t.nodes) new-label
        ∙ (used-agree (node_label t) (node_label t') t.next_node hrp.label t.nodes w.nodes_below
              after-label
            ∙ free)

    pushed-IsIndexed : IsIndexed pushed
    pushed-IsIndexed = record {
      nodes_below =
          subst (λ ns. All (λ n. n < t'.next_node) (ns ++ (t.next_node ∷ []))) (sym k.nodes)
            (subst (λ m. All (λ n. n < m) (t.nodes ++ (t.next_node ∷ []))) (sym k.next_node)
              (All-lt-snoc t.next_node t.nodes w.nodes_below));
      links_below = links_below-after w;
      nodes_distinct =
          subst (λ ns. Distinct (node_label t') (ns ++ (t.next_node ∷ []))) (sym k.nodes)
            (Distinct-append (node_label t') t.next_node t.nodes new-free (Distinct-after w));
      links_distinct = links-Distinct-after w;
    }

    pushed-find_core :
        (label : ℕ)
        → find_core label pushed
          ≡ (if hrp.label == label then some (core hrp) else find_core label t)
    pushed-find_core label =
        ap
          (λ ns.
            at_label (node_label t') (λ n. some (core_at t' n)) label (ns ++ (t.next_node ∷ []))
              none)
          k.nodes
        ∙ (at_label-append (node_label t') (λ n. some (core_at t' n)) label t.next_node t.nodes none
              new-free
            ∙ (ap
                  (λ l.
                    if l == label
                    then some (core_at t' t.next_node)
                    else at_label (node_label t') (λ n. some (core_at t' n)) label t.nodes none)
                  new-label
                ∙ (ap
                      (λ r.
                        if hrp.label == label
                        then some r
                        else at_label (node_label t') (λ n. some (core_at t' n)) label t.nodes none)
                      after-new
                    ∙ ap (λ r. if hrp.label == label then some (core hrp) else r)
                        (at_label-agree (node_label t) (λ n. some (core_at t n)) (node_label t')
                          (λ n. some (core_at t' n)) t.next_node label t.nodes none w.nodes_below
                          after-label (λ n h. ap some (after-core n h))))))

-- The response to a new node: its label has to be free, and its parent's label 0 or used.
abbrev pub response_to : (label parent_label : ℕ) → Topology → Response
response_to label parent_label t =
    if used (node_label t) label t.nodes
    then Response.already_used label
    else if parent_label == 0 || used (node_label t) parent_label t.nodes
    then Response.success
    else Response.parent_not_found parent_label

abbrev pub succeeds : Response → Bool
succeeds Response.success = true
succeeds (Response.already_used l) = false
succeeds (Response.parent_not_found l) = false
succeeds (Response.node1_not_found l) = false
succeeds (Response.node2_not_found l) = false
succeeds (Response.not_found l) = false

pub record Inserts (hrp : NodeResource) (parent_label : ℕ) (t : Topology) (r : Response × Topology)
    : Type 0 where
  pub response : r.0 ≡ response_to hrp.label parent_label t
  pub found :
      (label : ℕ)
      → find_core label r.1
        ≡ (if succeeds r.0 && hrp.label == label then some (core hrp) else find_core label t)
  pub indexed : IsIndexed r.1

finish_node-Inserts :
    (hrp : NodeResource) (parent_label : ℕ) (t t' : Topology) (o : Option Bool)
    → IsIndexed t
    → Keeps (allocated hrp t) t'
    → o ≡ outcome hrp.label parent_label t.nodes (parent_label == 0) t
    → Inserts hrp parent_label t (finish_node hrp.label parent_label t.next_node (o, t'))
unfolding finish_node
finish_node-Inserts hrp parent_label t t' none w k e =
    let taken : used (node_label t) hrp.label t.nodes ≡ true = ground arith in
    record {
      response = rw taken refl;
      found = after-find_core hrp t t' k w;
      indexed = after-IsIndexed hrp t t' k w;
    }
finish_node-Inserts hrp parent_label t t' (some false) w k e =
    let free : used (node_label t) hrp.label t.nodes ≡ false = ground arith in
    let lost : (parent_label == 0 || used (node_label t) parent_label t.nodes) ≡ false =
      ground arith in
    record {
      response = rw free (rw lost refl);
      found = after-find_core hrp t t' k w;
      indexed = after-IsIndexed hrp t t' k w;
    }
finish_node-Inserts hrp parent_label t t' (some true) w k e =
    let free : used (node_label t) hrp.label t.nodes ≡ false = ground arith in
    let seen : (parent_label == 0 || used (node_label t) parent_label t.nodes) ≡ true =
      ground arith in
    record {
      response = rw free (rw seen refl);
      found = pushed-find_core hrp t t' k w free;
      indexed = pushed-IsIndexed hrp t t' k w free;
    }

pub insert_node-Inserts :
    (hrp : NodeResource) (parent_label : ℕ) (t : Topology)
    → IsIndexed t
    → Inserts hrp parent_label t (insert_node hrp parent_label t)
unfolding insert_node
insert_node-Inserts hrp parent_label t w =
    let a = allocated hrp t in
    let r = find_parent hrp.label parent_label t.next_node t.nodes (parent_label == 0) a in
    let k = find_parent-Keeps hrp.label parent_label t.next_node t.nodes (parent_label == 0) a in
    let agree = λ (l : ℕ).
      used-agree (node_label t) (node_label a) t.next_node l t.nodes w.nodes_below
        (λ n h. ap (λ (c : NodeResource). c.label) (allocated-core hrp t n h)) in
    let o =
      find_parent_lem hrp.label parent_label t.next_node t.nodes (parent_label == 0) a
      ∙ (ap
            (λ u.
              if u
              then none
              else some (parent_label == 0 || used (node_label a) parent_label t.nodes))
            (agree hrp.label)
          ∙ ap
              (λ u.
                if used (node_label t) hrp.label t.nodes
                then none
                else some (parent_label == 0 || u))
              (agree parent_label)) in
    finish_node-Inserts hrp parent_label t r.1 r.0 w k o
