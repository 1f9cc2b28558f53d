-- ===== src/Database/Topology.antt =====
-- database/src/internal.h, topology.h and topology.cc: the nodes and links of an experiment. A
-- shared_ptr is an address in a store that only grows, since no operation looks at the use count.
pub mod Links
pub mod Lookup
pub mod Named
pub mod Adopt
pub mod Parents
pub mod Nodes
pub mod Placed
pub mod Ends
pub mod Joined
pub mod Operations
pub mod Orphans
pub mod Examples
use onldaemons.Prelude.{
  ℕ, zero, suc, ◌+◌, ◌-◌, ◌*◌, ◌%◌, ◌^◌, Bool, true, false, not, ◌&&◌, ◌||◌, Option, none, some,
  List, [], ◌∷◌, ◌++◌, map, ltb, leb, ◌==◌, if◌then◌else◌, length,
}
use onldaemons.Prelude.Codes.{codes}
use onldaemons.Prelude.Int.{ℤ, pos, negsuc}
use onldaemons.Shared.NccpString.{same_bytes}

pub record NodeResource : Type 0 where
  pub ntype : List ℕ
  pub label : ℕ
  pub is_parent : Bool
  pub parent : Option ℕ
  pub node_children : List ℕ
  pub links : List ℕ
  pub user_nodes : List ℕ
  pub has_vport : Bool
  pub fixed : Bool
  pub node : List ℕ
  pub acl : List ℕ
  pub cp : List ℕ
  pub marked : Bool
  pub level : ℕ
  pub priority : ℕ
  pub in_cluster : ℕ
  pub cost : ℕ
  pub is_split : Bool
  pub hosted_type : List ℕ
  pub dev_type : List ℕ
  pub core_capacity : ℕ
  pub mem_capacity : ℕ
  pub port_capacities : List ℕ
  pub potential_corecap : ℕ
  pub potential_memcap : ℕ
  pub vmid : ℕ
  pub ext_tag : List ℕ
  pub ext_ip : List ℕ

pub record LinkResource : Type 0 where
  pub label : ℕ
  pub capacity : ℕ
  pub node1 : ℕ
  pub node1_port : ℕ
  pub node1_rport : ℕ
  pub node1_mac : List ℕ
  pub node1_capacity : ℕ
  pub node2 : ℕ
  pub node2_port : ℕ
  pub node2_rport : ℕ
  pub node2_mac : List ℕ
  pub node2_capacity : ℕ
  pub conns : List ℕ
  pub marked : Bool
  pub level : ℕ
  pub in_cluster : ℕ
  pub linkid : ℕ
  pub added : Bool
  pub rload : ℕ
  pub lload : ℕ
  pub cost : ℕ
  pub potential_rcap : ℕ
  pub potential_lcap : ℕ
  pub user_link : Option ℕ
  pub mapped_path : List ℕ

-- The store and the two lists of the class.
pub record Topology : Type 0 where
  pub node_at : ℕ → NodeResource
  pub link_at : ℕ → LinkResource
  pub next_node : ℕ
  pub next_link : ℕ
  pub nodes : List ℕ
  pub links : List ℕ

-- An onldb_resp, by its message; its number is 1 for success and -1 for the others.
pub data Response : Type 0 where
  success : Response
  already_used : (label : ℕ) → Response
  parent_not_found : (parent_label : ℕ) → Response
  node1_not_found : (label : ℕ) → Response
  node2_not_found : (label : ℕ) → Response
  not_found : (label : ℕ) → Response

abbrev pub update : {A : Type 0} → (ℕ → A) → ℕ → A → ℕ → A
update f i a j = if j == i then a else f j

-- ::tolower of a byte
lower : ℕ → ℕ
lower c = if leb b'A' c && leb c b'Z' then c + 32 else c

unfoldable pub lowercase : List ℕ → List ℕ
unfolding lower
lowercase s = map lower s

abbrev repeat : ℕ → ℕ → List ℕ
repeat zero v = []
repeat (suc n) v = v ∷ repeat n v

unfoldable pub new_node :
    List ℕ → (label : ℕ) → Bool → (cores mem num_interface interfacebw : ℕ) → List ℕ → NodeResource
unfolding lowercase
new_node type label has_vport cores mem num_interface interfacebw ext_tag = record {
  ntype = lowercase type;
  label = label;
  is_parent = false;
  parent = none;
  node_children = [];
  links = [];
  user_nodes = [];
  has_vport = has_vport;
  fixed = false;
  node = [];
  acl = codes "unused";
  cp = codes "unused";
  marked = false;
  level = 0;
  priority = 0;
  in_cluster = 0;
  cost = 0;
  is_split = false;
  hosted_type = [];
  dev_type = [];
  core_capacity = cores;
  mem_capacity = mem;
  port_capacities = repeat num_interface interfacebw;
  potential_corecap = cores;
  potential_memcap = mem;
  vmid = 0;
  ext_tag = ext_tag;
  ext_ip = [];
}

-- What add_copy_node copies. The parent is found anew, the children, links and external names are not
-- copied, and the node that is copied becomes its user node.
unfoldable pub copy_node : ℕ → NodeResource → NodeResource
copy_node address cpnode = record cpnode {
  parent = none;
  node_children = [];
  links = [];
  user_nodes = address ∷ [];
  ext_tag = [];
  ext_ip = [];
}

-- `hrp->parent = *nit` and what is done to `*nit`.
unfoldable pub adopt : (parent child : ℕ) → Topology → Topology
adopt parent child t =
    let at = update t.node_at child (record (t.node_at child) { parent = some parent }) in
    record t {
      node_at = update at parent (record (at parent) {
        is_parent = true;
        node_children = (at parent).node_children ++ (child ∷ []);
      });
    }

-- The loop of add_node and add_copy_node: `none` where it returns since the label is used, and else
-- whether the parent was found.
unfoldable pub find_parent :
    (label parent_label child : ℕ) → List ℕ → Bool → Topology → Option Bool × Topology
find_parent label parent_label child [] parent_found t = (some parent_found, t)
find_parent label parent_label child (n ∷ ns) parent_found t =
    let hit = not parent_found && (t.node_at n).label == parent_label in
    let rest =
      find_parent label parent_label child ns (parent_found || hit)
        (if hit then adopt n child t else t) in
    if (t.node_at n).label == label then (none, t) else rest

unfoldable pub finish_node :
    (label parent_label child : ℕ) → Option Bool × Topology → Response × Topology
finish_node label parent_label child (none, t) = (Response.already_used label, t)
finish_node label parent_label child (some false, t) = (Response.parent_not_found parent_label, t)
finish_node label parent_label child (some true, t) =
    (Response.success, record t { nodes = t.nodes ++ (child ∷ []) })

-- `new node_resource()`, the loop, and the push.
unfoldable pub insert_node : NodeResource → (parent_label : ℕ) → Topology → Response × Topology
unfolding finish_node
insert_node hrp parent_label t =
    let child = t.next_node in
    let t' = record t { node_at = update t.node_at child hrp; next_node = child + 1 } in
    finish_node hrp.label parent_label child
      (find_parent hrp.label parent_label child t.nodes (parent_label == 0) t')

unfoldable pub add_node :
    List ℕ
    → (label parent_label : ℕ) → Bool
    → (cores mem num_interface interfacebw : ℕ) → List ℕ
    → Topology
    → Response × Topology
add_node type label parent_label has_vport cores mem num_interface interfacebw ext_tag t =
    insert_node (new_node type label has_vport cores mem num_interface interfacebw ext_tag)
      parent_label t

unfoldable pub parent_label_of : Option ℕ → Topology → ℕ
parent_label_of none t = 0
parent_label_of (some p) t = (t.node_at p).label

unfoldable pub add_copy_node : (cpnode : ℕ) → Topology → Response × Topology
unfolding parent_label_of
add_copy_node cpnode t =
    let n = t.node_at cpnode in insert_node (copy_node cpnode n) (parent_label_of n.parent t) t
