-- ===== src/Shared/Dispatcher.antt =====
-- shared/dispatcher.h and shared/dispatcher.cc: the registry of message classes, and the map from
-- rendezvous markers to the requests that wait. Requests are objects named by their addresses. Each
-- operation is one step: what other threads do between its critical sections is not modelled.
pub mod Map
pub mod Fresh
pub mod Delivery
pub mod Wait
pub mod Leftover
pub mod Examples
use onldaemons.Prelude.{
  ℕ, zero, suc, ◌+◌, ◌*◌, ◌%◌, ◌^◌, Bool, true, false, not, ◌&&◌, Option, none, some, List, [], ◌∷◌,
  ◌==◌ as nat_eq, if◌then◌else◌,
}
use onldaemons.Shared.Rendezvous.{Rendezvous, no_rendezvous, of_id, less}
use onldaemons.Shared.Message.{
  Message, Request, nccp_message_request, nccp_message_response, nccp_message_periodic,
  note_response, note_periodic, prepare_for_periodic,
}

-- std::map compares keys by operator< only.
unfoldable pub equivalent : Rendezvous → Rendezvous → Bool
unfolding less
equivalent a b = not (less a b) && not (less b a)

abbrev pub RendMap : Type 0
RendMap = List (Rendezvous × ℕ)

unfoldable pub find : Rendezvous → RendMap → Option ℕ
find k [] = none
find k ((j, r) ∷ m) = if equivalent j k then some r else find k m

-- rend_map[k] = r
unfoldable pub assign : Rendezvous → ℕ → RendMap → RendMap
assign k r [] = (k, r) ∷ []
assign k r ((j, s) ∷ m) = if equivalent j k then (j, r) ∷ m else (j, s) ∷ assign k r m

unfoldable pub erase : Rendezvous → RendMap → RendMap
erase k [] = []
erase k ((j, s) ∷ m) = let rest = erase k m in if equivalent j k then rest else (j, s) ∷ rest

pub record Dispatcher : Type 0 where
  pub rend_map : RendMap
  pub next_seq : ℕ → ℕ
  pub requests : ℕ → Request

-- dispatcher(): no marker is registered, and every sequence starts at 1.
pub new_dispatcher : (ℕ → Request) → Dispatcher
new_dispatcher requests = record { rend_map = []; next_seq = λ i. 1; requests = requests }

abbrev pub set_request : (ℕ → Request) → ℕ → Request → ℕ → Request
set_request f p r q = if nat_eq p q then r else f q

-- uint32_t seq = next_seq[id]++
abbrev bump : (ℕ → ℕ) → ℕ → ℕ → ℕ
bump f id i = if nat_eq id i then (f i + 1) % 2 ^ 32 else f i

-- The marker that the next registration of a request of operation `op` gets.
unfoldable pub next_marker : Dispatcher → ℕ → Rendezvous
unfolding of_id
next_marker d op = of_id (op % 256) (d.next_seq (op % 256))

-- The requests are called with a pointer, `none` for NULL.
unfoldable pub register_rendezvous : Option ℕ → Dispatcher → Dispatcher
unfolding next_marker assign
register_rendezvous none d = d
register_rendezvous (some req) d =
    let r = d.requests req in
    let rend = next_marker d r.message.op in
    record {
      next_seq = bump d.next_seq (r.message.op % 256);
      requests =
          set_request d.requests req (record r { message = record r.message { rend = rend } });
      rend_map = assign rend req d.rend_map;
    }

pub register_periodic_rendezvous : Option ℕ → Dispatcher → Dispatcher
unfolding next_marker assign prepare_for_periodic
register_periodic_rendezvous none d = d
register_periodic_rendezvous (some req) d =
    let r = d.requests req in
    let return_rend = next_marker d r.message.op in
    record {
      next_seq = bump d.next_seq (r.message.op % 256);
      requests = set_request d.requests req (
          prepare_for_periodic
            (record r { message = record r.message { return_rend = return_rend } }));
      rend_map = assign return_rend req d.rend_map;
    }

-- call_rendezvous(response): the response object and its marker. The result says whether the caller
-- is to delete the response.
pub call_response : ℕ → Rendezvous → Dispatcher → Dispatcher × Bool
unfolding find note_response
call_response res rend d = elim (find rend d.rend_map) [
  | none ↦ (d, true)
  | some req ↦ (
    record d { requests = set_request d.requests req (note_response res (d.requests req)) },
    false,
  )
]

-- call_rendezvous(periodic): the operation of the message and its marker.
pub call_periodic : ℕ → Rendezvous → Dispatcher → Dispatcher × Bool
unfolding find note_periodic
call_periodic op rend d = elim (find rend d.rend_map) [
  | none ↦ (d, true)
  | some req ↦
      (record d { requests = set_request d.requests req (note_periodic op (d.requests req)) }, true)
]

unfoldable pub clear_rendezvous : ℕ → Dispatcher → Dispatcher
unfolding erase
clear_rendezvous req d =
    let r = d.requests req in
    record d {
      rend_map = erase r.message.rend d.rend_map;
      requests =
          set_request d.requests req
            (record r { message = record r.message { rend = no_rendezvous } });
    }

pub clear_periodic_rendezvous : ℕ → Dispatcher → Dispatcher
unfolding erase
clear_periodic_rendezvous req d =
    let r = d.requests req in
    record d {
      rend_map = erase r.message.return_rend d.rend_map;
      requests =
          set_request d.requests req
            (record r { message = record r.message { return_rend = no_rendezvous } });
    }

-- The two tables of constructors, each class named by a number.
pub record Registry : Type 0 where
  pub req_map : ℕ → Option ℕ
  pub resp_map : ℕ → Option ℕ

add_class : (ℕ → Option ℕ) → ℕ → ℕ → ℕ → Option ℕ
add_class f op c i = if nat_eq op i then some c else f i

-- register_req<T>(op)
pub register_req : ℕ → ℕ → Registry → Registry × Bool
unfolding add_class
register_req op c g = elim (g.req_map op) [
  | some old ↦ (g, false)
  | none ↦ (record g { req_map = add_class g.req_map op c }, true)
]

pub register_resp : ℕ → ℕ → Registry → Registry × Bool
unfolding add_class
register_resp op c g = elim (g.resp_map op) [
  | some old ↦ (g, false)
  | none ↦ (record g { resp_map = add_class g.resp_map op c }, true)
]

-- The object that an arriving message becomes.
pub data Created : Type 0 where
  a_request a_response : ℕ → Created
  a_periodic : Created

made : (ℕ → Created) → Option ℕ → Option Created
made f none = none
made f (some c) = some (f c)

-- create_message looks at the first two bytes for the type, and at the fourth for the operation.
pub create_message : Registry → (ℕ → ℕ) → Option Created
unfolding made
create_message g mbuf =
    let mtype = mbuf 0 * 256 + mbuf 1 in
    let op = mbuf 3 in
    if nat_eq mtype nccp_message_request
    then made a_request (g.req_map op)
    else if nat_eq mtype nccp_message_response
    then made a_response (g.resp_map op)
    else if nat_eq mtype nccp_message_periodic
    then some a_periodic
    else none
