-- ===== src/Shared/OnlRequests/Codec.antt =====
-- The requests of shared/onl_requests.cc arrive as they were sent, where they fit the buffer.
use onldaemons.Prelude.{
  ℕ, ◌<◌, ◌≤◌, ◌≡◌, Bool, true, false, List, ◌++◌, length, length-append, arith,
}
use onldaemons.Shared.ByteBuffer.{ByteBuffer}
use onldaemons.Shared.ByteBuffer.Emit.{emit, emit-append}
use onldaemons.Shared.ByteBuffer.Holds.{Decodes, Decodes-bind, Decodes-map}
use onldaemons.Shared.ByteBuffer.Octets.{Octets, bytes8-Octets}
use onldaemons.Shared.NccpString.{
  NccpString, IsNccpString, bytes_string, put_string-emit, get_string-Decodes, bytes_string-Octets,
}
use onldaemons.Shared.OnlTypes.{Experiment, Component}
use onldaemons.Shared.OnlTypes.Valid.{
  IsExperiment, IsComponent, bytes_flag, bytes_experiment, bytes_experiment_info, bytes_component,
}
use onldaemons.Shared.OnlTypes.Codec.{
  put_experiment-emit, get_experiment-Decodes, put_component-emit, get_component-Decodes,
}
use onldaemons.Shared.Message.{Request}
use onldaemons.Shared.Message.Codec.{
  IsRequest, bytes_request, received_request, write_request-emit, parse_request-Decodes,
}
use onldaemons.Shared.Message.Wire.{Delivers, deliver}
use onldaemons.Shared.Message.Delivery.{octets, bytes_message-Octets, length-bytes_request}
use onldaemons.Shared.OnlRequests.{CrdRequest, parse_crd_request, write_crd_request}

pub bytes_flag-Octets : (b : Bool) → Octets (bytes_flag b)
unfolding bytes_flag
bytes_flag-Octets true = bytes8-Octets 1
bytes_flag-Octets false = bytes8-Octets 0

pub bytes_request-Octets : (r : Request) → Octets (bytes_request r)
unfolding bytes_request
bytes_request-Octets r = search (octets, bytes_message-Octets)

pub ruleset fields = (octets, bytes_string-Octets, bytes_flag-Octets, bytes_request-Octets)

bytes_experiment-Octets : (x : Experiment) → Octets (bytes_experiment x)
unfolding bytes_experiment bytes_experiment_info
bytes_experiment-Octets x = search fields depth 12

bytes_component-Octets : (x : Component) → Octets (bytes_component x)
unfolding bytes_component
bytes_component-Octets x = search fields depth 14

pub record IsCrdRequest (x : CrdRequest) : Type 0 where
  pub request : IsRequest x.request
  pub exp : IsExperiment x.exp
  pub comp : IsComponent x.comp

unfoldable pub bytes_crd_request : CrdRequest → List ℕ
bytes_crd_request x = bytes_request x.request ++ (bytes_experiment x.exp ++ bytes_component x.comp)

unfoldable pub received_crd_request : CrdRequest → CrdRequest → CrdRequest
received_crd_request old x = record x { request = received_request old.request x.request }

pub write_crd_request-emit : (x : CrdRequest) → write_crd_request x ≡ emit (bytes_crd_request x)
unfolding write_crd_request bytes_crd_request
write_crd_request-emit x =
    simp (write_request-emit, put_experiment-emit, put_component-emit, emit-append)

pub parse_crd_request-Decodes :
    (old x : CrdRequest)
    → IsCrdRequest x
    → Decodes (parse_crd_request old) (bytes_crd_request x) (received_crd_request old x)
unfolding parse_crd_request bytes_crd_request received_crd_request
parse_crd_request-Decodes old x w =
    Decodes-bind _ (parse_request-Decodes old.request x.request w.request) (
      Decodes-bind _ (get_experiment-Decodes x.exp w.exp)
        (Decodes-map _ (get_component-Decodes x.comp w.comp)))

pub bytes_crd_request-Octets : (x : CrdRequest) → Octets (bytes_crd_request x)
unfolding bytes_crd_request
bytes_crd_request-Octets x =
    search (octets, bytes_request-Octets, bytes_experiment-Octets, bytes_component-Octets)

pub bytes_crd_request-some : (x : CrdRequest) → 0 < length (bytes_crd_request x)
unfolding bytes_crd_request
bytes_crd_request-some x =
    let size =
      length-append (bytes_request x.request) (bytes_experiment x.exp ++ bytes_component x.comp) in
    let header = length-bytes_request x.request in omega arith

-- A crd_request with fields in the range of their C++ types arrives, if its bytes fit the sender's
-- buffer: the object parsed from the bytes sent has its header, its experiment and its component.
pub crd_request_delivered :
    (old x : CrdRequest)
    → IsCrdRequest x
    → (b : ByteBuffer) (fresh grown : ℕ → ℕ) → length (bytes_crd_request x) ≤ b.num_bytes_allocated
    → Delivers
        (write_crd_request x)
        (parse_crd_request old)
        b
        fresh
        grown
        (received_crd_request old x)
crd_request_delivered old x w b fresh grown room =
    deliver _ _ _ _ (write_crd_request-emit x) (parse_crd_request-Decodes old x w)
      (bytes_crd_request-Octets x) (bytes_crd_request-some x) b fresh grown room
