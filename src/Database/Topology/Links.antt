-- ===== src/Database/Topology/Links.antt =====
-- database/src/topology.cc: the operations on links, and those that read or remove.
use onldaemons.Prelude.{
  ℕ, ◌+◌, ◌-◌, ◌%◌, ◌^◌, Bool, false, ◌||◌, Option, none, some, List, [], ◌∷◌, ◌++◌, ltb, ◌==◌,
  if◌then◌else◌,
}
use onldaemons.Database.Topology.{LinkResource, Topology, Response, update}

-- A node of the label, if none was found before it.
unfoldable pub pick : (label : ℕ) → Option ℕ → ℕ → Topology → Option ℕ
pick label (some m) n t = some m
pick label none n t = if (t.node_at n).label == label then some n else none

-- The loop that looks for both ends of a link.
unfoldable pub find_ends :
    (label1 label2 : ℕ) → List ℕ → Option ℕ × Option ℕ → Topology → Option ℕ × Option ℕ
unfolding pick
find_ends label1 label2 [] ends t = ends
find_ends label1 label2 (n ∷ ns) (end1, end2) t =
    find_ends label1 label2 ns (pick label1 end1 n t, pick label2 end2 n t) t

unfoldable pub has_link : (label : ℕ) → List ℕ → Topology → Bool
has_link label [] t = false
has_link label (l ∷ ls) t = (t.link_at l).label == label || has_link label ls t

-- `node->links.push_back(lrp)`
unfoldable pub attach : (node link : ℕ) → Topology → Topology
attach node link t = record t {
  node_at =
      update t.node_at node
        (record (t.node_at node) { links = (t.node_at node).links ++ (link ∷ []) });
}

abbrev sub32 : ℕ → ℕ → ℕ
sub32 a b = (a + 2 ^ 32 - b) % 2 ^ 32

-- Both ends known: the link is made, pushed to the list of each end, twice where they are one node, and
-- to the topology's.
unfoldable pub store_link :
    (ℕ → ℕ → LinkResource)
    → (label1 label2 : ℕ) → Option ℕ × Option ℕ
    → Topology
    → Response × Topology
store_link make label1 label2 (none, end2) t = (Response.node1_not_found label1, t)
store_link make label1 label2 (some n1, none) t = (Response.node2_not_found label2, t)
store_link make label1 label2 (some n1, some n2) t =
    let l = t.next_link in
    let t' = record t { link_at = update t.link_at l (make n1 n2); next_link = l + 1 } in
    let t'' = attach n2 l (attach n1 l t') in
    (Response.success, record t'' { links = t''.links ++ (l ∷ []) })

unfoldable pub insert_link :
    (label : ℕ) → (ℕ → ℕ → LinkResource) → (label1 label2 : ℕ) → Topology → Response × Topology
unfolding store_link
insert_link label make label1 label2 t =
    if has_link label t.links t
    then (Response.already_used label, t)
    else store_link make label1 label2 (find_ends label1 label2 t.nodes (none, none) t) t

-- The ports, real ports and capacity of one end, a capacity of 0 standing for that of the link.
pub record LinkEnd : Type 0 where
  pub label : ℕ
  pub port : ℕ
  pub rport : ℕ
  pub cap : ℕ

unfoldable pub new_link :
    (label capacity : ℕ)
    → (end1 end2 : LinkEnd) → (rload lload : ℕ) → (node1 node2 : ℕ) → LinkResource
new_link label capacity end1 end2 rload lload node1 node2 = record {
  label = label;
  capacity = capacity;
  node1 = node1;
  node1_port = end1.port;
  node1_rport = end1.rport;
  node1_mac = [];
  node1_capacity = if ltb 0 end1.cap then end1.cap else capacity;
  node2 = node2;
  node2_port = end2.port;
  node2_rport = end2.rport;
  node2_mac = [];
  node2_capacity = if ltb 0 end2.cap then end2.cap else capacity;
  conns = [];
  marked = false;
  level = 0;
  in_cluster = 0;
  linkid = 0;
  added = false;
  rload = rload;
  lload = lload;
  cost = 0;
  potential_rcap = sub32 capacity rload;
  potential_lcap = sub32 capacity lload;
  user_link = none;
  mapped_path = [];
}

unfoldable pub add_link :
    (label capacity : ℕ)
    → (end1 end2 : LinkEnd) → (rload lload : ℕ) → Topology
    → Response × Topology
add_link label capacity end1 end2 rload lload t =
    insert_link label (new_link label capacity end1 end2 rload lload) end1.label end2.label t

-- The names on the network, the connections and the path are not copied, and the link that is copied
-- becomes the user's link.
unfoldable pub copy_link : ℕ → LinkResource → (node1 node2 : ℕ) → LinkResource
copy_link address lnk node1 node2 = record lnk {
  node1 = node1;
  node2 = node2;
  node1_mac = [];
  node2_mac = [];
  conns = [];
  user_link = some address;
  mapped_path = [];
}

unfoldable pub add_copy_link : (lnk : ℕ) → Topology → Response × Topology
add_copy_link lnk t =
    let l = t.link_at lnk in
    insert_link l.label (copy_link lnk l) (t.node_at l.node1).label (t.node_at l.node2).label t

-- The list without the first address whose label is the given one, or none if there is no such address.
unfoldable pub erase : (ℕ → ℕ) → (label : ℕ) → List ℕ → Option (List ℕ)
erase label_of label [] = none
erase label_of label (n ∷ ns) =
    if label_of n == label
    then some ns
    else elim (erase label_of label ns) [ none ↦ none | some rest ↦ some (n ∷ rest) ]

unfoldable pub removed_node : (label : ℕ) → Option (List ℕ) → Topology → Response × Topology
removed_node label none t = (Response.not_found label, t)
removed_node label (some ns) t = (Response.success, record t { nodes = ns })

-- The node's links, and its parent's children, stay as they are.
unfoldable pub remove_node : (label : ℕ) → Topology → Response × Topology
unfolding removed_node
remove_node label t = removed_node label (erase (λ n. (t.node_at n).label) label t.nodes) t

unfoldable pub removed_link : (label : ℕ) → Option (List ℕ) → Topology → Response × Topology
removed_link label none t = (Response.not_found label, t)
removed_link label (some ls) t = (Response.success, record t { links = ls })

unfoldable pub remove_link : (label : ℕ) → Topology → Response × Topology
unfolding removed_link
remove_link label t = removed_link label (erase (λ l. (t.link_at l).label) label t.links) t
