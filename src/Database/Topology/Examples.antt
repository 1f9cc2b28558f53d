-- ===== src/Database/Topology/Examples.antt =====
-- The theorems on topologies at a concrete topology.
use onldaemons.Prelude.{ℕ, zero, suc, refl, true, false, [], ◌∷◌, arith}
use onldaemons.Prelude.Codes.{codes}
use onldaemons.Database.Topology.{NodeResource, LinkResource, Topology, new_node, add_node}
use onldaemons.Database.Topology.Links.{LinkEnd, new_link, remove_node}
use onldaemons.Database.Topology.Adopt.{IsIndexed}
use onldaemons.Database.Topology.Placed.{Placed}
use onldaemons.Database.Topology.Operations.{Removes, remove_node-Removes}
use onldaemons.Database.Topology.Orphans.{Orphans, add_node-Orphans}

-- A cluster with label 7 and a switch with label 8.
abbrev cluster_and_switch : ℕ → NodeResource
cluster_and_switch zero = new_node (codes "ixpCluster") 7 false 1 1 0 0 []
cluster_and_switch (suc n) = new_node (codes "vgige") 8 true 1 1 2 1000 []

abbrev cable : LinkResource
cable =
    new_link 3 1000 (record { label = 7; port = 0; rport = 0; cap = 0 })
      (record { label = 8; port = 1; rport = 1; cap = 0 }) 0 0 0 1

abbrev small : Topology
small = record {
  node_at = cluster_and_switch;
  link_at = λ l. cable;
  next_node = 2;
  next_link = 1;
  nodes = 0 ∷ 1 ∷ [];
  links = 0 ∷ [];
}

small-IsIndexed : IsIndexed small
unfolding new_node new_link
small-IsIndexed = record {
  nodes_below = omega arith;
  links_below = omega arith;
  nodes_distinct = (refl, (refl, tt));
  links_distinct = (refl, tt);
}

abbrev left_end : LinkEnd
left_end = record { label = 7; port = 2; rport = 2; cap = 0 }

abbrev right_end : LinkEnd
right_end = record { label = 8; port = 0; rport = 0; cap = 500 }

remove_node-Removes_example : Removes 8 small (remove_node 8 small)
remove_node-Removes_example = remove_node-Removes 8 small small-IsIndexed

add_node-Orphans_example : Orphans 0 8 small (add_node (codes "IXP") 8 7 false 1 1 5 1000 [] small)
unfolding new_node
add_node-Orphans_example =
    add_node-Orphans (codes "IXP") 8 false 1 1 5 1000 [] small 0 (1 ∷ []) refl (omega arith)
      (omega arith) refl refl refl
