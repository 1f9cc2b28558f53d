-- ===== src/Database/Topology/Lookup.antt =====
-- database/src/topology.cc: what is read of a topology by label, and its costs.
use onldaemons.Prelude.{ℕ, Bool, false, ◌&&◌, ◌||◌, List, [], ◌∷◌, ◌==◌, if◌then◌else◌}
use onldaemons.Prelude.Codes.{codes}
use onldaemons.Prelude.Int.{ℤ, pos, negsuc}
use onldaemons.Shared.NccpString.{same_bytes}
use onldaemons.Database.Topology.{Topology}

-- A loop that returns at the first node or link of a label; the default stands behind it.
unfoldable pub at_label : {A : Type 0} → (ℕ → ℕ) → (ℕ → A) → (label : ℕ) → List ℕ → A → A
at_label label_of f label [] none_found = none_found
at_label label_of f label (n ∷ ns) none_found =
    if label_of n == label then f n else at_label label_of f label ns none_found

abbrev pub node_label : Topology → ℕ → ℕ
node_label t n = (t.node_at n).label

abbrev pub link_label : Topology → ℕ → ℕ
link_label t l = (t.link_at l).label

unfoldable pub get_component : (label : ℕ) → Topology → List ℕ
get_component label t = at_label (node_label t) (λ n. (t.node_at n).node) label t.nodes []

unfoldable pub get_type : (label : ℕ) → Topology → List ℕ
get_type label t = at_label (node_label t) (λ n. (t.node_at n).ntype) label t.nodes []

unfoldable pub has_virtual_port : (label : ℕ) → Topology → Bool
has_virtual_port label t =
    at_label (node_label t) (λ n. (t.node_at n).has_vport) label t.nodes false

unfoldable pub get_vmid : (label : ℕ) → Topology → ℕ
get_vmid label t = at_label (node_label t) (λ n. (t.node_at n).vmid) label t.nodes 0

unfoldable pub get_extip : (label : ℕ) → Topology → List ℕ
get_extip label t = at_label (node_label t) (λ n. (t.node_at n).ext_ip) label t.nodes []

-- The first node of the name whose vmid fits, where 0 fits all, and a vgige fits any.
unfoldable pub label_of_name : List ℕ → (vmid : ℕ) → List ℕ → Topology → ℕ
label_of_name node vmid [] t = 0
label_of_name node vmid (n ∷ ns) t =
    let r = t.node_at n in
    if same_bytes r.node node
      && (r.vmid == vmid || (vmid == 0 || same_bytes r.ntype (codes "vgige")))
    then r.label
    else label_of_name node vmid ns t

pub get_label : List ℕ → (vmid : ℕ) → Topology → ℕ
unfolding label_of_name
get_label node vmid t = label_of_name node vmid t.nodes t

-- The caller's list, replaced if the label is found.
unfoldable pub get_conns : (label : ℕ) → List ℕ → Topology → List ℕ
get_conns label conn_list t =
    at_label (link_label t) (λ l. (t.link_at l).conns) label t.links conn_list

-- `-1` where the label is not found. An int stands for the unsigned number below 2 ^ 31.
unfoldable pub get_realport : (label node_ndx : ℕ) → Topology → ℤ
get_realport label node_ndx t =
    at_label (link_label t)
      (λ l. pos (if node_ndx == 1 then (t.link_at l).node1_rport else (t.link_at l).node2_rport))
      label t.links (negsuc 0)

unfoldable pub get_capacity : (label node_ndx : ℕ) → Topology → ℤ
get_capacity label node_ndx t =
    at_label (link_label t)
      (λ l.
        pos (if node_ndx == 1 then (t.link_at l).node1_capacity else (t.link_at l).node2_capacity))
      label t.links (negsuc 0)

unfoldable pub get_macaddr : (label node_ndx : ℕ) → Topology → List ℕ
get_macaddr label node_ndx t =
    at_label (link_label t)
      (λ l. if node_ndx == 1 then (t.link_at l).node1_mac else (t.link_at l).node2_mac) label
      t.links []
