-- ===== src/Database/Topology/Operations.antt =====
-- The operations of database/src/topology.cc on the two maps of a topology, and over any history.
use onldaemons.Prelude.{
  ℕ, ◌≡◌, refl, sym, subst, false, Option, none, some, List, ◌==◌, if◌then◌else◌, arith, Bool-cases,
  inl, inr,
}
use onldaemons.Database.Topology.{
  NodeResource, Topology, Response, copy_node, parent_label_of, add_copy_node,
}
use onldaemons.Database.Topology.Links.{
  copy_link, add_copy_link, removed_node, removed_link, remove_node, remove_link,
}
use onldaemons.Database.Topology.Lookup.{at_label, node_label, link_label}
use onldaemons.Database.Topology.Named.{used, at_label-unused, Erases, erase-Erases}
use onldaemons.Database.Topology.Adopt.{IsIndexed}
use onldaemons.Database.Topology.Nodes.{Inserts, insert_node-Inserts}
use onldaemons.Database.Topology.Placed.{Placed, insert_node-Placed}
use onldaemons.Database.Topology.Joined.{insert_link-InsertsLink}

pub add_copy_node-Inserts :
    (cpnode : ℕ) (t : Topology)
    → IsIndexed t
    → let hrp = copy_node cpnode (t.node_at cpnode) in
      let parent_label = parent_label_of (t.node_at cpnode).parent t in
      let r = add_copy_node cpnode t in Inserts hrp parent_label t r × Placed hrp parent_label t r
unfolding add_copy_node copy_node
add_copy_node-Inserts cpnode t w = (insert_node-Inserts _ _ t w, insert_node-Placed _ _ t refl w)

add_copy_link-IsIndexed : (lnk : ℕ) (t : Topology) → IsIndexed t → IsIndexed (add_copy_link lnk t).1
unfolding add_copy_link copy_link
add_copy_link-IsIndexed lnk t w =
    (insert_link-InsertsLink (t.link_at lnk).label _ _ _ t (λ n m. refl) w).indexed

-- The node that a label finds.
abbrev pub find_node : (label : ℕ) → Topology → Option NodeResource
find_node label t = at_label (node_label t) (λ n. some (t.node_at n)) label t.nodes none

-- Removing a node by its label.
pub record Removes (label : ℕ) (t : Topology) (r : Response × Topology) : Type 0 where
  pub response :
      r.0
      ≡ (if used (node_label t) label t.nodes then Response.success else Response.not_found label)
  pub found : (l : ℕ) → find_node l r.1 ≡ (if l == label then none else find_node l t)
  pub links : r.1.links ≡ t.links
  pub node_at : r.1.node_at ≡ t.node_at
  pub link_at : r.1.link_at ≡ t.link_at
  pub indexed : IsIndexed r.1

unused_law :
    (label : ℕ) (t : Topology)
    → used (node_label t) label t.nodes ≡ false
    → (l : ℕ) → find_node l t ≡ (if l == label then none else find_node l t)
unused_law label t free l = elim (Bool-cases (l == label)) [
  | inl same ↦
      let e : l ≡ label = ground arith in
      rw same (
        at_label-unused (node_label t) (λ n. some (t.node_at n)) l t.nodes none
          (subst (λ m. used (node_label t) m t.nodes ≡ false) (sym e) free))
  | inr other ↦ rw other refl
]

removed_node-Removes :
    (label : ℕ) (t : Topology) (o : Option (List ℕ))
    → IsIndexed t
    → Erases (node_label t) (λ n. some (t.node_at n)) t.next_node label t.nodes none o
    → Removes label t (removed_node label o t)
unfolding removed_node
removed_node-Removes label t none w e = record {
  response = rw e refl;
  found = unused_law label t e;
  links = refl;
  node_at = refl;
  link_at = refl;
  indexed = w;
}
removed_node-Removes label t (some ns) w (u, below, d, s, g) = record {
  response = rw u refl;
  found = g;
  links = refl;
  node_at = refl;
  link_at = refl;
  indexed = record {
    nodes_below = below;
    links_below = w.links_below;
    nodes_distinct = d;
    links_distinct = w.links_distinct;
  };
}

-- The response of remove_node is success exactly if the label is used. Afterwards nothing stands under
-- the label and every other label finds the node that it found; the list of links is as before, and so
-- are all fields of all nodes and links, those of the removed node included.
pub remove_node-Removes :
    (label : ℕ) (t : Topology) → IsIndexed t → Removes label t (remove_node label t)
unfolding remove_node
remove_node-Removes label t w = removed_node-Removes label t _ w (
    erase-Erases (node_label t) (λ n. some (t.node_at n)) t.next_node label t.nodes none
      w.nodes_below w.nodes_distinct)

removed_link-IsIndexed :
    (label : ℕ) (t : Topology) (o : Option (List ℕ))
    → IsIndexed t
    → Erases (link_label t) (λ l. l) t.next_link label t.links 0 o
    → IsIndexed (removed_link label o t).1
unfolding removed_link
removed_link-IsIndexed label t none w e = w
removed_link-IsIndexed label t (some ls) w (u, below, d, s, g) = record {
  nodes_below = w.nodes_below;
  links_below = below;
  nodes_distinct = w.nodes_distinct;
  links_distinct = d;
}

remove_link-IsIndexed : (label : ℕ) (t : Topology) → IsIndexed t → IsIndexed (remove_link label t).1
unfolding remove_link
remove_link-IsIndexed label t w = removed_link-IsIndexed label t _ w (
    erase-Erases (link_label t) (λ l. l) t.next_link label t.links 0 w.links_below w.links_distinct)
