-- ===== src/Npr/Routes/Restore.antt =====
-- What a route leaves behind when it is deleted.
use onldaemons.Prelude.{
  ℕ, ◌%◌, ◌^◌, ◌≤◌, ◌≡◌, refl, ◌∙◌, ap, List, ◌∷◌, some, false, ◌==◌, if◌then◌else◌, arith,
}
use onldaemons.Npr.FreeList.{Range, get_free_index, add_free_index}
use onldaemons.Npr.FreeList.Chain.{is_free, Chain, add_free_index-get_free_index}
use onldaemons.Npr.Classes.{mc_start, uc_start, uc_class, get_prefix_length}
use onldaemons.Npr.Classes.Order.{
  mc_start_bounds, uc_start_bounds, mc_class-mc_start, uc_class-uc_start,
}
use onldaemons.Npr.Classes.Prefix.{get_prefix_length-IsRun}
use onldaemons.Npr.Tcam.{
  Table, TcamCommand, success, done, Configuration, reply, last_result, SameLists, sram_index2addr,
  take, give, update,
}
use onldaemons.Npr.Entries.Stored.{
  taken, restored, with_entry, returned, sram_index2addr-lt, add_entry_lem, del_entry_lem,
  query_entry_lem,
}
use onldaemons.Npr.Routes.{
  RouteMask, RouteResult, route_index, add_route, give_route_index, del_route, query_route,
}

abbrev with_route :
    List ℕ → RouteMask → RouteResult → ℕ → ℕ → List Range → Configuration → Configuration
with_route key mask result = with_entry Table.route key mask.bytes result.words (λ addr. addr)

abbrev route_returned :
    List ℕ → RouteMask → RouteResult → ℕ → ℕ → List Range → Configuration → Configuration
route_returned key mask result = returned Table.route key mask.bytes result.words (λ addr. addr)

same_word : (s : ℕ) → s ≤ 131070 → sram_index2addr s % 2 ^ 21 ≡ sram_index2addr s
same_word s h = omega (arith, sram_index2addr-lt s h)

add_route_lem :
    (key : List ℕ) (mask : RouteMask) (result : RouteResult) (c d : Configuration) (i s : ℕ)
    (ss : List Range)
    → route_index mask result c ≡ (done i, d)
    → get_free_index d.sram_free_list ≡ some (s, ss)
    → add_route key mask result (reply 4 success 0) c
      ≡ (done tt, with_route key mask result i s ss d)
unfolding add_route
add_route_lem key mask result c d i s ss e f =
    add_entry_lem _ _ _ _ _ (route_index mask result) c d i s ss e f

del_route_lem :
    (key : List ℕ) (mask : RouteMask) (result : RouteResult) (d e : Configuration) (i s : ℕ)
    (ss : List Range)
    → s ≤ 131070
    → give_route_index i (route_returned key mask result i s ss d) ≡ (done tt, e)
    → e.srmap ≡ record { sram_addr = sram_index2addr s; id = d.next_id } ∷ d.srmap
    → del_route key
        (reply 8 success (sram_index2addr s))
        (reply 4 success 0)
        (with_route key mask result i s ss d)
      ≡ (done tt, record e { srmap = d.srmap })
unfolding del_route
del_route_lem key mask result d e i s ss h g m =
    del_entry_lem Table.route key mask.bytes result.words (λ addr. addr) d i s ss h (same_word s h)
      give_route_index e g m

-- The lists that an added route takes from are in order, within their ranges, and not used up.
pub record HasRoom (start : ℕ → Range) (len : ℕ) (routes : List Range) (c : Configuration) (i s : ℕ)
    (rs ss : List Range) : Type 0 where
  pub chain : Chain (start len).left (start len).right routes
  pub index : get_free_index routes ≡ some (i, rs)
  pub sram_chain : Chain 1 131070 c.sram_free_list
  pub sram_index : get_free_index c.sram_free_list ≡ some (s, ss)

-- Adding the route succeeds, and so does deleting it, if the TCAM daemon answers that it succeeded and
-- gives the result that was sent with the entry.
abbrev pub AddsAndDeletes : List ℕ → RouteMask → RouteResult → (c d e : Configuration) → Type 0
AddsAndDeletes key mask result c d e =
    (add_route key mask result (reply 4 success 0) c ≡ (done tt, d))
    × (del_route key (reply 8 success (last_result d.sent)) (reply 4 success 0) d ≡ (done tt, e))

-- A multicast route is added and deleted, where the free list of its prefix length and that of SRAM
-- are in order, have only indexes of their own ranges, and are not used up. If the TCAM daemon answers
-- all three commands with success, and the query before the deletion with the result that was sent
-- with the entry, both operations succeed, and afterwards the free indexes of every table, those of
-- SRAM and the ids of results are what they were before.
pub del_route-add_route_mc :
    (key : List ℕ) (mask : RouteMask) (result : RouteResult) (c : Configuration) (i s : ℕ)
    (rs ss : List Range)
    → result.ip_mc_valid ≡ 1
    → HasRoom mc_start
        (get_prefix_length mask.saddr)
        (c.mc_routes (get_prefix_length mask.saddr))
        c
        i
        s
        rs
        ss
    → (d : Configuration) × (e : Configuration) × AddsAndDeletes key mask result c d e
      × SameLists c e
unfolding route_index give_route_index take give
del_route-add_route_mc key mask result c i s rs ss mc w =
    let len = get_prefix_length mask.saddr in
    let run = get_prefix_length-IsRun mask.saddr in
    let (low, small) = mc_start_bounds len run.fits in
    let t = taken _ _ _ rs i small w.chain w.index in
    let u = taken 1 131070 _ ss s (omega arith) w.sram_chain w.sram_index in
    let (is_mc, class) = mc_class-mc_start len i run.fits (t.bottom, t.top) in
    let back = add_free_index-get_free_index _ _ _ small low w.chain i rs w.index in
    let sram_back =
      add_free_index-get_free_index 1 131070 _ (omega arith) (omega arith) w.sram_chain s ss
        w.sram_index in
    let d = record c { mc_routes = update c.mc_routes len rs } in
    (
      with_route key mask result i s ss d,
      record (route_returned key mask result i s ss d) {
        srmap = c.srmap;
        mc_routes =
            update (update c.mc_routes len rs) len
              (add_free_index i (update c.mc_routes len rs len));
      },
      (
        add_route_lem key mask result c d i s ss (rw mc (rw w.index refl)) w.sram_index,
        del_route_lem key mask result d _ i s ss u.top (rw is_mc (rw class refl)) refl,
      ),
      record {
        srmap = refl;
        sram_free_list = sram_back;
        mc_routes = λ j. restored c.mc_routes len i j rs back;
        uc_routes = λ j. refl;
        pfilters = λ j. refl;
        afilters = λ j. refl;
        arps = refl;
      },
    )

-- A unicast route with a prefix length other than 1 is added and deleted, where the free list of its
-- prefix length and that of SRAM are in order, have only indexes of their own ranges, and are not used
-- up. If the TCAM daemon answers all three commands with success, and the query before the deletion
-- with the result that was sent with the entry, both operations succeed, and afterwards the free
-- indexes of every table, those of SRAM and the ids of results are what they were before.
pub del_route-add_route_uc :
    (key : List ℕ) (mask : RouteMask) (result : RouteResult) (c : Configuration) (i s : ℕ)
    (rs ss : List Range)
    → (result.ip_mc_valid == 1) ≡ false
    → (get_prefix_length mask.daddr == 1) ≡ false
    → HasRoom uc_start
        (get_prefix_length mask.daddr)
        (c.uc_routes (get_prefix_length mask.daddr))
        c
        i
        s
        rs
        ss
    → (d : Configuration) × (e : Configuration) × AddsAndDeletes key mask result c d e
      × SameLists c e
unfolding route_index give_route_index take give
del_route-add_route_uc key mask result c i s rs ss uc other w =
    let len = get_prefix_length mask.daddr in
    let run = get_prefix_length-IsRun mask.daddr in
    let (low, small) = uc_start_bounds len run.fits in
    let t = taken _ _ _ rs i small w.chain w.index in
    let u = taken 1 131070 _ ss s (omega arith) w.sram_chain w.sram_index in
    let (is_uc, of_class) = uc_class-uc_start len i run.fits (t.bottom, t.top) in
    let class : uc_class i ≡ len = of_class ∙ ap (λ t. if t then 0 else len) other in
    let back = add_free_index-get_free_index _ _ _ small low w.chain i rs w.index in
    let sram_back =
      add_free_index-get_free_index 1 131070 _ (omega arith) (omega arith) w.sram_chain s ss
        w.sram_index in
    let d = record c { uc_routes = update c.uc_routes len rs } in
    (
      with_route key mask result i s ss d,
      record (route_returned key mask result i s ss d) {
        srmap = c.srmap;
        uc_routes =
            update (update c.uc_routes len rs) len
              (add_free_index i (update c.uc_routes len rs len));
      },
      (
        add_route_lem key mask result c d i s ss (rw uc (rw w.index refl)) w.sram_index,
        del_route_lem key mask result d _ i s ss u.top (rw is_uc (rw class refl)) refl,
      ),
      record {
        srmap = refl;
        sram_free_list = sram_back;
        mc_routes = λ j. refl;
        uc_routes = λ j. restored c.uc_routes len i j rs back;
        pfilters = λ j. refl;
        afilters = λ j. refl;
        arps = refl;
      },
    )

-- A unicast route with prefix length 1 is added and deleted, where the free list of that length and
-- that of SRAM are in order, have only indexes of their own ranges, and are not used up. If the TCAM
-- daemon answers all three commands with success, and the query before the deletion with the result
-- that was sent with the entry, both operations succeed, but the index in the TCAM does not come back
-- to the list of length 1: it goes to that of length 0.
pub del_route-add_route_moves :
    (key : List ℕ) (mask : RouteMask) (result : RouteResult) (c : Configuration) (i s : ℕ)
    (rs ss : List Range)
    → (result.ip_mc_valid == 1) ≡ false
    → get_prefix_length mask.daddr ≡ 1
    → HasRoom uc_start 1 (c.uc_routes 1) c i s rs ss
    → (d : Configuration) × (e : Configuration) × AddsAndDeletes key mask result c d e
      × (e.uc_routes 1 ≡ rs)
      × (is_free i rs ≡ false)
      × (e.uc_routes 0 ≡ add_free_index i (c.uc_routes 0))
unfolding route_index give_route_index take give
del_route-add_route_moves key mask result c i s rs ss uc one w =
    let t =
      taken (uc_start 1).left (uc_start 1).right (c.uc_routes 1) rs i
        (uc_start_bounds 1 (omega arith)).1 w.chain w.index in
    let u = taken 1 131070 _ ss s (omega arith) w.sram_chain w.sram_index in
    let (is_uc, class) = uc_class-uc_start 1 i (omega arith) (t.bottom, t.top) in
    let d = record c { uc_routes = update c.uc_routes 1 rs } in
    (
      with_route key mask result i s ss d,
      record (route_returned key mask result i s ss d) {
        srmap = c.srmap;
        uc_routes = update (update c.uc_routes 1 rs) 0 (add_free_index i (c.uc_routes 0));
      },
      (
        add_route_lem key mask result c d i s ss (rw uc (rw one (rw w.index refl))) w.sram_index,
        del_route_lem key mask result d _ i s ss u.top (rw is_uc (rw class refl)) refl,
      ),
      refl,
      t.taken,
      refl,
    )

-- A route is added where its list gives an index and SRAM another of its range, and then queried. Both
-- succeed: if the TCAM daemon gives the result that was sent with the entry, the query returns the
-- three words that the route was added with, and changes no more than the commands sent.
pub query_route-add_route :
    (key : List ℕ) (mask : RouteMask) (result : RouteResult) (c c' : Configuration) (i s : ℕ)
    (ss : List Range)
    → route_index mask result c ≡ (done i, c')
    → get_free_index c'.sram_free_list ≡ some (s, ss)
    → s ≤ 131070
    → (d : Configuration) × (add_route key mask result (reply 4 success 0) c ≡ (done tt, d))
      × (query_route key (reply 8 success (last_result d.sent)) d
          ≡ (done result.words, record d { sent = TcamCommand.query Table.route key ∷ d.sent }))
unfolding query_route
query_route-add_route key mask result c c' i s ss e f h = (
  with_route key mask result i s ss c',
  add_route_lem key mask result c c' i s ss e f,
  query_entry_lem Table.route key mask.bytes result.words (λ addr. addr) c' i s ss h
      (same_word s h),
)
