-- ===== src/Npr/Routes/Failures.antt =====
-- What a route that could not be added leaves behind.
use onldaemons.Prelude.{ℕ, ◌≡◌, refl, List, [], Option, none, some, false}
use onldaemons.Npr.FreeList.{Range, get_free_index}
use onldaemons.Npr.Tcam.{Table, Answer, Fault, done, exception, Configuration}
use onldaemons.Npr.Entries.Stored.{with_entry, is_success, add_entry_no_sram, add_entry_failed}
use onldaemons.Npr.Routes.{RouteMask, RouteResult, route_index, add_route}

-- The state that is left: SRAM's list has given an index, or it had none.
abbrev pub left_behind :
    List ℕ → RouteMask → RouteResult → ℕ → Configuration → Option (ℕ × List Range) → Configuration
left_behind key mask result i c none = c
left_behind key mask result i c (some (s, ss)) =
    with_entry Table.route key mask.bytes result.words (λ addr. addr) i s ss c

failed_by :
    (key : List ℕ) (mask : RouteMask) (result : RouteResult) (answer : Answer)
    (c c' : Configuration) (i : ℕ) (o : Option (ℕ × List Range))
    → route_index mask result c ≡ (done i, c')
    → get_free_index c'.sram_free_list ≡ o
    → is_success answer ≡ false
    → (f : Fault) × (add_route key mask result answer c
        ≡ (exception f, left_behind key mask result i c' o))
unfolding add_route
failed_by key mask result answer c c' i none e g bad = (
  Fault.no_free_entry,
  add_entry_no_sram _ _ _ _ _ (route_index mask result) c c' i 0 [] e answer g,
)
failed_by key mask result answer c c' i (some (s, ss)) e g bad =
    add_entry_failed _ _ _ _ _ (route_index mask result) c c' i s ss e answer g bad

-- A route's index is taken from its list, which leaves the state c', and the command is not written
-- whole or the TCAM daemon does not answer with success. Then add_route throws. If SRAM had no free
-- index, the route's index stays taken; if it had one, both indexes, the id and the words of the result
-- stay as if the route had been added.
pub add_route_failed :
    (key : List ℕ) (mask : RouteMask) (result : RouteResult) (answer : Answer)
    (c c' : Configuration) (i : ℕ)
    → route_index mask result c ≡ (done i, c')
    → is_success answer ≡ false
    → (f : Fault) × (add_route key mask result answer c
        ≡ (exception f, left_behind key mask result i c' (get_free_index c'.sram_free_list)))
add_route_failed key mask result answer c c' i e bad =
    failed_by key mask result answer c c' i _ e refl bad
