-- ===== src/Database/Topology/Ends.antt =====
-- A new link: what add_link and add_copy_link do to the map of links, and that they keep the nodes.
use onldaemons.Prelude.{
  ℕ, ◌+◌, ◌<◌, ◌≡◌, refl, ap, sym, subst, fun_ext, ◌∙◌, Bool, true, false, Option, none, some, List,
  [], ◌∷◌, ◌++◌, append-nil, append_assoc, ◌==◌, if◌then◌else◌, arith, Bool-cases, inl, inr,
  ==_refl,
}
use onldaemons.Database.Topology.{NodeResource, LinkResource, Topology, update}
use onldaemons.Database.Topology.Links.{pick, find_ends, has_link, attach}
use onldaemons.Database.Topology.Lookup.{at_label, node_label, link_label}
use onldaemons.Database.Topology.Named.{
  used, Distinct, Distinct-append, at_label-append, at_label-agree, used-agree, Distinct-agree,
  All-lt-snoc,
}
use onldaemons.Database.Topology.Adopt.{core_at, IsIndexed}

-- The first node of a label.
abbrev pub first_node : (label : ℕ) → List ℕ → Topology → Option ℕ
first_node label ns t = at_label (node_label t) (λ n. some n) label ns none

abbrev pub or_else : Option ℕ → Option ℕ → Option ℕ
or_else none o = o
or_else (some n) o = some n

pick-or_else :
    (label n : ℕ) (ns : List ℕ) (e : Option ℕ) (t : Topology)
    → or_else (pick label e n t) (first_node label ns t) ≡ or_else e (first_node label (n ∷ ns) t)
unfolding pick at_label
pick-or_else label n ns (some m) t = refl
pick-or_else label n ns none t = elim (Bool-cases ((t.node_at n).label == label)) [
  | inl hit ↦ rw hit refl
  | inr other ↦ rw other refl
]

pub find_ends_lem :
    (l1 l2 : ℕ) (ns : List ℕ) (e1 e2 : Option ℕ) (t : Topology)
    → find_ends l1 l2 ns (e1, e2) t
      ≡ (or_else e1 (first_node l1 ns t), or_else e2 (first_node l2 ns t))
unfolding find_ends at_label
find_ends_lem l1 l2 [] none none t = refl
find_ends_lem l1 l2 [] none (some m) t = refl
find_ends_lem l1 l2 [] (some n) none t = refl
find_ends_lem l1 l2 [] (some n) (some m) t = refl
find_ends_lem l1 l2 (n ∷ ns) e1 e2 t =
    find_ends_lem l1 l2 ns (pick l1 e1 n t) (pick l2 e2 n t) t
    ∙ (ap (λ o. (o, or_else (pick l2 e2 n t) (first_node l2 ns t))) (pick-or_else l1 n ns e1 t)
        ∙ ap (λ o. (or_else e1 (first_node l1 (n ∷ ns) t), o)) (pick-or_else l2 n ns e2 t))

pub has_link-used :
    (label : ℕ) (ls : List ℕ) (t : Topology) → has_link label ls t ≡ used (link_label t) label ls
unfolding has_link
has_link-used label [] t = refl
has_link-used label (l ∷ ls) t = rw (has_link-used label ls t) refl

attach-core : (n l : ℕ) (t : Topology) → core_at (attach n l t) ≡ core_at t
unfolding attach
attach-core n l t = fun_ext (λ m. ground arith)

-- The link under a label.
abbrev pub find_link : (label : ℕ) → Topology → Option LinkResource
find_link label t = at_label (link_label t) (λ l. some (t.link_at l)) label t.links none

abbrev pub stored : LinkResource → (n1 n2 : ℕ) → Topology → Topology
stored link n1 n2 t =
    let l = t.next_link in
    let t'' =
      attach n2 l
        (attach n1 l (record t { link_at = update t.link_at l link; next_link = l + 1 })) in
    record t'' { links = t''.links ++ (l ∷ []) }

pub stored-core :
    (link : LinkResource) (n1 n2 : ℕ) (t : Topology) → core_at (stored link n1 n2 t) ≡ core_at t
stored-core link n1 n2 t =
    let t' = record t {
      link_at = update t.link_at t.next_link link;
      next_link = t.next_link + 1;
    } in
    attach-core n2 t.next_link (attach n1 t.next_link t') ∙ attach-core n1 t.next_link t'

module _ (link : LinkResource) (n1 n2 : ℕ) (t : Topology) (w : IsIndexed t)
    (free : used (link_label t) link.label t.links ≡ false) where
  old_link : (l : ℕ) → l < t.next_link → update t.link_at t.next_link link l ≡ t.link_at l
  old_link l h = let e : (l == t.next_link) ≡ false = ground arith in rw e refl

  new_link_at : update t.link_at t.next_link link t.next_link ≡ link
  new_link_at = rw (==_refl t.next_link) refl

  abbrev label_after : ℕ → ℕ
  label_after l = (update t.link_at t.next_link link l).label

  new-free : used label_after (label_after t.next_link) t.links ≡ false
  new-free =
      ap (λ (k : LinkResource). used label_after k.label t.links) new_link_at
      ∙ (used-agree (link_label t) label_after t.next_link link.label t.links w.links_below
            (λ l h. ap (λ (k : LinkResource). k.label) (old_link l h))
          ∙ free)

  pub stored-IsIndexed : IsIndexed (stored link n1 n2 t)
  unfolding attach
  stored-IsIndexed = record {
    nodes_below = w.nodes_below;
    links_below = All-lt-snoc t.next_link t.links w.links_below;
    nodes_distinct =
        subst (λ (c : ℕ → NodeResource). Distinct (λ n. (c n).label) t.nodes)
          (sym (stored-core link n1 n2 t)) w.nodes_distinct;
    links_distinct = Distinct-append label_after t.next_link t.links new-free (
        Distinct-agree (link_label t) label_after t.next_link t.links w.links_below
          (λ l h. ap (λ (k : LinkResource). k.label) (old_link l h)) w.links_distinct);
  }

  pub stored-find_link :
      (label : ℕ)
      → find_link label (stored link n1 n2 t)
        ≡ (if link.label == label then some link else find_link label t)
  unfolding attach
  stored-find_link label =
      at_label-append label_after (λ l. some (update t.link_at t.next_link link l)) label
        t.next_link t.links none new-free
      ∙ (ap
            (λ (k : LinkResource).
              if k.label == label
              then some k
              else at_label label_after (λ l. some (update t.link_at t.next_link link l)) label
                  t.links none)
            new_link_at
          ∙ ap (λ r. if link.label == label then some link else r)
              (at_label-agree (link_label t) (λ l. some (t.link_at l)) label_after
                (λ l. some (update t.link_at t.next_link link l)) t.next_link label t.links none
                w.links_below (λ l h. ap (λ (k : LinkResource). k.label) (old_link l h))
                (λ l h. ap some (old_link l h))))

-- The link, if the test holds.
abbrev pub once_if : Bool → ℕ → List ℕ
once_if true l = l ∷ []
once_if false l = []

attached :
    (n l : ℕ) (t : Topology) (k : ℕ)
    → (attach n l t).node_at k
      ≡ record (t.node_at k) { links = (t.node_at k).links ++ once_if (k == n) l }
unfolding attach
attached n l t k = elim (Bool-cases (k == n)) [
  | inl e ↦
      let same : n ≡ k = ground arith in
      rw e (ap (λ j. record (t.node_at j) { links = (t.node_at j).links ++ (l ∷ []) }) same)
  | inr e ↦
      rw e (ap (λ ls. record (t.node_at k) { links = ls }) (sym (append-nil (t.node_at k).links)))
]

-- The links of each node afterwards; the rest of it is as before.
pub stored-node_at :
    (link : LinkResource) (n1 n2 : ℕ) (t : Topology) (k : ℕ)
    → (stored link n1 n2 t).node_at k ≡ record (t.node_at k) {
      links =
          (t.node_at k).links ++ (once_if (k == n1) t.next_link ++ once_if (k == n2) t.next_link);
    }
unfolding attach
stored-node_at link n1 n2 t k =
    let l = t.next_link in
    let t' = record t { link_at = update t.link_at l link; next_link = l + 1 } in
    attached n2 l (attach n1 l t') k
    ∙ (ap (λ (r : NodeResource). record r { links = r.links ++ once_if (k == n2) l })
          (attached n1 l t' k)
        ∙ ap (λ ls. record (t.node_at k) { links = ls })
            (append_assoc (t.node_at k).links (once_if (k == n1) l) (once_if (k == n2) l)))
