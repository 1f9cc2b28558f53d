-- ===== src/Shared/SwitchRequests/Delivery.antt =====
-- The requests of shared/switch_requests.cc arrive as they were sent, where they fit the buffer.
use onldaemons.Prelude.{
  ℕ, ◌^◌, ◌<◌, ◌≤◌, ◌≡◌, refl, List, [], ◌∷◌, ◌++◌, All, length, length-append, arith,
}
use onldaemons.Shared.ByteBuffer.{ByteBuffer}
use onldaemons.Shared.ByteBuffer.Emit.{emit, emit-append, emit-nil, bytes32, put32-emit}
use onldaemons.Shared.ByteBuffer.Holds.{
  Decodes, Decodes-bind, Decodes-map, Decodes-pure, get32-Decodes,
}
use onldaemons.Shared.ByteBuffer.Octets.{Octets, Octets-append}
use onldaemons.Shared.NccpString.{
  IsNccpString, bytes_string, put_string-emit, get_string-Decodes, bytes_string-Octets,
}
use onldaemons.Shared.SwitchTypes.{
  SwitchPort, SwitchInfo, IsSwitchPort, IsSwitchInfo, bytes_switch_port, bytes_switch_info,
  put_switch_port-emit, get_switch_port-Decodes, put_switch_info-emit, get_switch_info-Decodes,
}
use onldaemons.Shared.Message.Codec.{
  IsRequest, bytes_request, received_request, write_request-emit, parse_request-Decodes,
}
use onldaemons.Shared.Message.Wire.{Delivers, deliver}
use onldaemons.Shared.Message.Delivery.{octets, length-bytes_request}
use onldaemons.Shared.OnlRequests.Codec.{bytes_request-Octets}
use onldaemons.Shared.SwitchRequests.{
  SwitchRequest, parse_switch_request, write_switch_request, AddToVlan, parse_add_to_vlan,
  write_add_to_vlan, Initialize, parse_switches, parse_initialize, write_switches, write_initialize,
}

unfoldable pub bytes_switch_request : SwitchRequest → List ℕ
bytes_switch_request x = bytes_request x.request ++ bytes_string x.session_id

unfoldable pub received_switch_request : SwitchRequest → SwitchRequest → SwitchRequest
received_switch_request old x = record x { request = received_request old.request x.request }

write_switch_request-emit :
    (x : SwitchRequest) → write_switch_request x ≡ emit (bytes_switch_request x)
unfolding write_switch_request bytes_switch_request
write_switch_request-emit x = simp (write_request-emit, put_string-emit, emit-append)

parse_switch_request-Decodes :
    (old x : SwitchRequest)
    → IsRequest x.request
    → IsNccpString x.session_id
    → Decodes (parse_switch_request old) (bytes_switch_request x) (received_switch_request old x)
unfolding parse_switch_request bytes_switch_request received_switch_request
parse_switch_request-Decodes old x w s =
    Decodes-bind _ (parse_request-Decodes old.request x.request w)
      (Decodes-map _ (get_string-Decodes x.session_id s))

bytes_switch_request-Octets : (x : SwitchRequest) → Octets (bytes_switch_request x)
unfolding bytes_switch_request
bytes_switch_request-Octets x =
    Octets-append _ _ (bytes_request-Octets x.request) (bytes_string-Octets x.session_id)

bytes_switch_port-Octets : (x : SwitchPort) → Octets (bytes_switch_port x)
unfolding bytes_switch_port
bytes_switch_port-Octets x = search (octets, bytes_string-Octets)

bytes_switch_info-Octets : (x : SwitchInfo) → Octets (bytes_switch_info x)
unfolding bytes_switch_info
bytes_switch_info-Octets x = search (octets, bytes_string-Octets)

pub record IsAddToVlan (x : AddToVlan) : Type 0 where
  pub request : IsRequest x.switch_request.request
  pub session_id : IsNccpString x.switch_request.session_id
  pub vlanid : x.vlanid < 2 ^ 32
  pub port : IsSwitchPort x.port

unfoldable pub bytes_add_to_vlan : AddToVlan → List ℕ
bytes_add_to_vlan x =
    bytes_switch_request x.switch_request ++ (bytes32 x.vlanid ++ bytes_switch_port x.port)

-- An add_to_vlan with fields in the range of their C++ types arrives, if its bytes fit the sender's
-- buffer, with its header, its session, the id of the VLAN and the port.
pub add_to_vlan_delivered :
    (old x : AddToVlan)
    → IsAddToVlan x
    → (b : ByteBuffer) (fresh grown : ℕ → ℕ) → length (bytes_add_to_vlan x) ≤ b.num_bytes_allocated
    → Delivers
        (write_add_to_vlan x)
        (parse_add_to_vlan old)
        b
        fresh
        grown
        (record x { switch_request = received_switch_request old.switch_request x.switch_request })
unfolding write_add_to_vlan parse_add_to_vlan bytes_add_to_vlan bytes_switch_request
add_to_vlan_delivered old x w b fresh grown room =
    let header = length-bytes_request x.switch_request.request in
    let front =
      length-append (bytes_request x.switch_request.request)
        (bytes_string x.switch_request.session_id) in
    let size =
      length-append (bytes_switch_request x.switch_request)
        (bytes32 x.vlanid ++ bytes_switch_port x.port) in
    deliver (write_add_to_vlan x) _ (bytes_add_to_vlan x) _
      (simp (write_switch_request-emit, put32-emit, put_switch_port-emit, emit-append))
      (Decodes-bind _
        (parse_switch_request-Decodes old.switch_request x.switch_request w.request w.session_id)
        (Decodes-bind _ (get32-Decodes x.vlanid w.vlanid)
          (Decodes-map _ (get_switch_port-Decodes x.port w.port))))
      (search (octets, bytes_switch_request-Octets, bytes_switch_port-Octets)) (omega arith) b fresh
      grown room

unfoldable pub bytes_switches : List SwitchInfo → List ℕ
bytes_switches [] = []
bytes_switches (s ∷ ss) = bytes_switch_info s ++ bytes_switches ss

write_switches-emit : (ss : List SwitchInfo) → write_switches ss ≡ emit (bytes_switches ss)
unfolding write_switches bytes_switches
write_switches-emit [] = emit-nil
write_switches-emit (s ∷ ss) = simp (put_switch_info-emit, write_switches-emit ss, emit-append)

bytes_switches-Octets : (ss : List SwitchInfo) → Octets (bytes_switches ss)
unfolding bytes_switches
bytes_switches-Octets [] = tt
bytes_switches-Octets (s ∷ ss) =
    Octets-append _ _ (bytes_switch_info-Octets s) (bytes_switches-Octets ss)

append-nil : (xs : List SwitchInfo) → xs ++ [] ≡ xs
append-nil [] = refl
append-nil (x ∷ xs) = cc (append-nil xs)

append-snoc :
    (xs : List SwitchInfo) (y : SwitchInfo) (ys : List SwitchInfo)
    → (xs ++ (y ∷ [])) ++ ys ≡ xs ++ (y ∷ ys)
append-snoc [] y ys = refl
append-snoc (x ∷ xs) y ys = cc (append-snoc xs y ys)

parse_switches-Decodes :
    (old ss : List SwitchInfo)
    → All IsSwitchInfo ss
    → Decodes (parse_switches (length ss) old) (bytes_switches ss) (old ++ ss)
unfolding parse_switches bytes_switches
parse_switches-Decodes old [] w = rw (append-nil old) (Decodes-pure old)
parse_switches-Decodes old (s ∷ ss) w =
    Decodes-bind _ (get_switch_info-Decodes s w.0)
      (rw (← append-snoc old s ss) (parse_switches-Decodes (old ++ (s ∷ [])) ss w.1))

pub record IsInitialize (x : Initialize) : Type 0 where
  pub request : IsRequest x.request
  pub few : length x.switches < 2 ^ 32
  pub switches : All IsSwitchInfo x.switches

unfoldable pub bytes_initialize : Initialize → List ℕ
bytes_initialize x =
    bytes_request x.request ++ (bytes32 (length x.switches) ++ bytes_switches x.switches)

-- An initialize with fields in the range of their C++ types arrives, if its bytes fit the sender's
-- buffer: the object has the header that was sent, and behind the switches that it had before parse it
-- has all that were sent, in their order.
pub initialize_delivered :
    (old x : Initialize)
    → IsInitialize x
    → (b : ByteBuffer) (fresh grown : ℕ → ℕ) → length (bytes_initialize x) ≤ b.num_bytes_allocated
    → Delivers (write_initialize x) (parse_initialize old) b fresh grown (record {
      request = received_request old.request x.request;
      switches = old.switches ++ x.switches;
    })
unfolding write_initialize parse_initialize bytes_initialize
initialize_delivered old x w b fresh grown room =
    let header = length-bytes_request x.request in
    let size =
      length-append (bytes_request x.request)
        (bytes32 (length x.switches) ++ bytes_switches x.switches) in
    deliver (write_initialize x) _ (bytes_initialize x) _
      (simp (write_request-emit, put32-emit, write_switches-emit, emit-append))
      (Decodes-bind _ (parse_request-Decodes old.request x.request w.request) (
        Decodes-bind _ (get32-Decodes (length x.switches) w.few)
          (Decodes-map _ (parse_switches-Decodes old.switches x.switches w.switches))))
      (search (octets, bytes_request-Octets, bytes_switches-Octets)) (omega arith) b fresh grown
      room
