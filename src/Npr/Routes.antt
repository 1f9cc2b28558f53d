-- ===== src/Npr/Routes.antt =====
-- ixp/npr/nprd_configuration.cc: the operations on routes.
pub mod Restore
pub mod Failures
use onldaemons.Prelude.{ℕ, List, ◌==◌, if◌then◌else◌}
use onldaemons.Npr.Classes.{get_prefix_length, is_mc_index, mc_class, uc_class}
use onldaemons.Npr.Tcam.{Table, Answer, M, mc_slot, uc_slot, take, give}
use onldaemons.Npr.Entries.{Words, add_entry, del_entry, query_entry}

-- The mask's two addresses, and its bytes for the TCAM daemon.
pub record RouteMask : Type 0 where
  pub daddr : ℕ
  pub saddr : ℕ
  pub bytes : List ℕ

-- The result's words, and its field that tells multicast from unicast routes.
pub record RouteResult : Type 0 where
  pub ip_mc_valid : ℕ
  pub words : Words

-- The index for the entry: by source address for a multicast route, by destination for a unicast one.
unfoldable pub route_index : RouteMask → RouteResult → M ℕ
route_index mask result =
    if result.ip_mc_valid == 1
    then take (mc_slot (get_prefix_length mask.saddr))
    else take (uc_slot (get_prefix_length mask.daddr))

pub add_route : List ℕ → RouteMask → RouteResult → Answer → M (Unit {0})
add_route key mask result =
    add_entry Table.route key mask.bytes result.words (λ sram_addr. sram_addr)
      (route_index mask result)

-- The list to which the index of a route goes back.
unfoldable pub give_route_index : ℕ → M (Unit {0})
give_route_index i =
    if is_mc_index i then give (mc_slot (mc_class i)) i else give (uc_slot (uc_class i)) i

pub del_route : List ℕ → (queried deleted : Answer) → M (Unit {0})
del_route key queried deleted = del_entry Table.route key queried deleted give_route_index

pub query_route : List ℕ → Answer → M Words
query_route key answer = query_entry Table.route key answer
