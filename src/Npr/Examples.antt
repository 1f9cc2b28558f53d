-- ===== src/Npr/Examples.antt =====
-- The theorems on the network processor's daemon at concrete values.
use onldaemons.Prelude.{
  ℕ, ◌-◌, ◌^◌, ◌≡◌, ◌≢◌, refl, List, [], ◌∷◌, ◌==◌, if◌then◌else◌, true, false, arith,
}
use onldaemons.Npr.FreeList.{range, get_free_index, add_free_index}
use onldaemons.Npr.FreeList.Chain.{is_free}
use onldaemons.Npr.FreeList.Holders.{Pool, Step, Reach, IsExact, whole, Reach-IsExact}
use onldaemons.Npr.Classes.{
  mc_start, uc_start, pfilter_start, afilter_start, sram_start, arp_start, get_prefix_length,
}
use onldaemons.Npr.Classes.Order.{Before, start-Before}
use onldaemons.Npr.Tcam.{
  Table, success, Answer, Fault, done, exception, Configuration, started, reply, last_result,
  SameLists, take,
}
use onldaemons.Npr.Entries.{Words}
use onldaemons.Npr.Entries.Stored.{with_entry}
use onldaemons.Npr.Routes.{RouteMask, RouteResult, route_index, add_route}
use onldaemons.Npr.Routes.Restore.{
  AddsAndDeletes, del_route-add_route_mc, del_route-add_route_uc, del_route-add_route_moves,
}
use onldaemons.Npr.Routes.Failures.{add_route_failed}
use onldaemons.Npr.Filters.{PfilterResult, add_pfilter, del_pfilter}
use onldaemons.Npr.Filters.Misplaced.{del_pfilter-add_pfilter}
use onldaemons.Npr.Arps.{ArpResult, add_arp, update_arp, query_arp, del_arp}
use onldaemons.Npr.Arps.Restore.{found, del_arp-update_arp-add_arp}

-- Two indexes taken from three, and the first given back.
abbrev first_taken : Pool
first_taken = record { free = range 2 3 ∷ []; held = 1 ∷ [] }

one_taken : Step (whole 1 3) first_taken
unfolding get_free_index
one_taken = Step.take (whole 1 3) 1 (range 2 3 ∷ []) refl

Reach-IsExact_example : IsExact 1 3 first_taken
Reach-IsExact_example =
    Reach-IsExact 1 3 (omega arith) (omega arith) (Reach.next Reach.here one_taken)

abbrev all_taken : Pool
all_taken = record { free = []; held = 4 ∷ [] }

last_taken : Step (whole 4 4) all_taken
unfolding get_free_index
last_taken = Step.take (whole 4 4) 4 [] refl

start-Before_example :
    Before (mc_start 24) (mc_start 0)
    × Before (uc_start 24) (uc_start 0)
    × Before (mc_start 0) (uc_start 24)
    × Before (mc_start 24) (uc_start 0)
    × Before (pfilter_start 3) (pfilter_start 60)
    × Before (afilter_start 3) (afilter_start 60)
start-Before_example =
    start-Before 0 24 3 60 (omega arith) (omega arith) (omega arith) (omega arith)

abbrev c0 : Configuration
c0 = started (λ a. 0)

abbrev host_words : Words
host_words = record { v0 = 5; v1 = 6; v2 = 7 }

abbrev key : List ℕ
key = 192 ∷ 168 ∷ 1 ∷ 0 ∷ 224 ∷ 0 ∷ 0 ∷ 1 ∷ 0 ∷ []

-- Prefix lengths 24, 0 and 1.
abbrev mask24 : RouteMask
mask24 = record { daddr = 2 ^ 32 - 2 ^ 8; saddr = 2 ^ 32 - 2 ^ 8; bytes = [] }

abbrev multicast : RouteResult
multicast = record { ip_mc_valid = 1; words = host_words }

abbrev unicast : RouteResult
unicast = record { ip_mc_valid = 0; words = host_words }

abbrev mask1 : RouteMask
mask1 = record { daddr = 2 ^ 31; saddr = 0; bytes = [] }

len24 : get_prefix_length (2 ^ 32 - 2 ^ 8) ≡ 24
unfolding get_prefix_length
len24 = refl

del_route-add_route_mc_example :
    (d : Configuration) × (e : Configuration) × AddsAndDeletes key mask24 multicast c0 d e
    × SameLists c0 e
unfolding started get_prefix_length mc_start sram_start get_free_index
del_route-add_route_mc_example =
    del_route-add_route_mc key mask24 multicast c0 1985 1 (range 1986 2232 ∷ [])
      (range 2 131070 ∷ []) refl
      (record { chain = omega arith; index = refl; sram_chain = omega arith; sram_index = refl })

del_route-add_route_uc_example :
    (d : Configuration) × (e : Configuration) × AddsAndDeletes key mask24 unicast c0 d e
    × SameLists c0 e
unfolding started get_prefix_length uc_start sram_start get_free_index
del_route-add_route_uc_example =
    del_route-add_route_uc key mask24 unicast c0 10177 1 (range 10178 10424 ∷ [])
      (range 2 131070 ∷ []) refl refl
      (record { chain = omega arith; index = refl; sram_chain = omega arith; sram_index = refl })

del_route-add_route_moves_example :
    (d : Configuration) × (e : Configuration) × AddsAndDeletes key mask1 unicast c0 d e
    × (e.uc_routes 1 ≡ range 16130 16375 ∷ [])
    × (is_free 16129 (range 16130 16375 ∷ []) ≡ false)
    × (e.uc_routes 0 ≡ add_free_index 16129 (c0.uc_routes 0))
unfolding started get_prefix_length uc_start sram_start get_free_index
del_route-add_route_moves_example =
    del_route-add_route_moves key mask1 unicast c0 16129 1 (range 16130 16375 ∷ [])
      (range 2 131070 ∷ []) refl refl
      (record { chain = omega arith; index = refl; sram_chain = omega arith; sram_index = refl })

abbrev c1 : Configuration
c1 = record c0 { mc_routes = λ i. if i == 24 then range 1986 2232 ∷ [] else c0.mc_routes i }

abbrev unanswered : Answer
unanswered = record { written = true; bytes_read = 0; response = 0; result = 0 }

add_route_failed_example :
    (f : Fault) × (add_route key mask24 multicast unanswered c0 ≡ (
      exception f,
      with_entry Table.route key [] host_words (λ addr. addr) 1985 1 (range 2 131070 ∷ []) c1,
    ))
unfolding started route_index take get_prefix_length mc_start sram_start get_free_index
add_route_failed_example = add_route_failed key mask24 multicast unanswered c0 c1 1985 refl refl

abbrev to_plugin : PfilterResult
to_plugin = record { ip_mc_valid = 0; uc_mc_bits = 48; words = host_words }

del_pfilter-add_pfilter_example :
    (d : Configuration) × (e : Configuration) × (add_pfilter key [] 60 to_plugin
        (reply 4 success 0)
        c0
      ≡ (done tt, d))
    × (del_pfilter key (reply 8 success (last_result d.sent)) (reply 4 success 0) d ≡ (done tt, e))
    × (◌≢◌ {A = ℕ} 60 (63 - 60))
    × (e.pfilters 60 ≡ range 30662 31171 ∷ [])
    × (is_free 30661 (range 30662 31171 ∷ []) ≡ false)
    × (e.pfilters (63 - 60) ≡ add_free_index 30661 (c0.pfilters (63 - 60)))
unfolding started pfilter_start sram_start get_free_index
del_pfilter-add_pfilter_example =
    del_pfilter-add_pfilter key [] 60 to_plugin c0 30661 1 (range 30662 31171 ∷ [])
      (range 2 131070 ∷ []) (omega arith)
      (record { chain = omega arith; index = refl; sram_chain = omega arith; sram_index = refl })

abbrev old_mac : ArpResult
old_mac = record { v0 = 17; v1 = 34 }

abbrev new_mac : ArpResult
new_mac = record { v0 = 51; v1 = 68 }

del_arp-update_arp-add_arp_example :
    (d d' d'' e : Configuration) × (add_arp key [] old_mac (reply 4 success 0) c0 ≡ (done tt, d))
    × (update_arp key new_mac (found d) d ≡ (done tt, d'))
    × (query_arp key (found d') d' ≡ (done new_mac, d''))
    × (del_arp key (found d'') (reply 4 success 0) d'' ≡ (done tt, e))
    × SameLists c0 e
unfolding started arp_start sram_start get_free_index
del_arp-update_arp-add_arp_example =
    del_arp-update_arp-add_arp key [] old_mac new_mac c0 1 1 (range 2 16382 ∷ [])
      (range 2 131070 ∷ []) (omega arith) refl (omega arith) refl
