-- ===== src/Shared/OnlRequests/Delivery.antt =====
-- The requests of shared/onl_requests.cc that carry more than their experiment and component.
use onldaemons.Prelude.{
  ℕ, ◌+◌, ◌^◌, ◌<◌, ◌≤◌, ◌≡◌, ◌↔◌, none, List, ◌++◌, map, All, length, length-append, arith,
}
use onldaemons.Shared.ByteBuffer.{ByteBuffer}
use onldaemons.Shared.ByteBuffer.Emit.{emit, emit-append, bytes32, put32-emit}
use onldaemons.Shared.ByteBuffer.Holds.{Decodes-bind, Decodes-map, get32-Decodes}
use onldaemons.Shared.ByteBuffer.Octets.{Octets, Octets-append}
use onldaemons.Shared.ByteBuffer.Growth.{overrun_iff}
use onldaemons.Shared.NccpString.{
  IsNccpString, bytes_string, put_string-emit, get_string-Decodes, bytes_string-Octets,
}
use onldaemons.Shared.OnlTypes.{NodeInfo}
use onldaemons.Shared.OnlTypes.Valid.{IsNodeInfo, bytes_node_info, bytes_nh_info}
use onldaemons.Shared.OnlTypes.Codec.{put_node_info-emit, get_node_info-Decodes}
use onldaemons.Shared.Params.{new_param}
use onldaemons.Shared.Params.Codec.{
  IsParam, received, bytes_params, put_params-emit, get_params-Decodes, bytes_params-Octets,
}
use onldaemons.Shared.Message.Codec.{
  IsRequest, bytes_request, received_request, write_request-emit, parse_request-Decodes,
}
use onldaemons.Shared.Message.Wire.{Delivers, deliver}
use onldaemons.Shared.Message.Delivery.{octets, length-bytes_request}
use onldaemons.Shared.OnlRequests.{
  IAmUp, parse_i_am_up, write_i_am_up, ConfigureNode, parse_configure_node, write_configure_node,
  StartExperiment, parse_start_experiment, write_start_experiment, Refresh, parse_refresh,
  write_refresh,
}
use onldaemons.Shared.OnlRequests.Codec.{
  fields, bytes_request-Octets, IsCrdRequest, bytes_crd_request, received_crd_request,
  write_crd_request-emit, parse_crd_request-Decodes, bytes_crd_request-Octets,
  bytes_crd_request-some,
}

unfoldable pub bytes_i_am_up : IAmUp → List ℕ
bytes_i_am_up x = bytes_request x.request ++ bytes_string x.cp

-- An i_am_up with fields in the range of their C++ types arrives with its header and the name of its
-- machine, if its bytes fit the sender's buffer.
pub i_am_up_delivered :
    (old x : IAmUp)
    → IsRequest x.request
    → IsNccpString x.cp
    → (b : ByteBuffer) (fresh grown : ℕ → ℕ) → length (bytes_i_am_up x) ≤ b.num_bytes_allocated
    → Delivers
        (write_i_am_up x)
        (parse_i_am_up old)
        b
        fresh
        grown
        (record { request = received_request old.request x.request; cp = x.cp })
unfolding write_i_am_up parse_i_am_up bytes_i_am_up
i_am_up_delivered old x w c b fresh grown room =
    let header = length-bytes_request x.request in
    let size = length-append (bytes_request x.request) (bytes_string x.cp) in
    deliver (write_i_am_up x) _ (bytes_i_am_up x) _
      (simp (write_request-emit, put_string-emit, emit-append))
      (Decodes-bind _ (parse_request-Decodes old.request x.request w)
        (Decodes-map _ (get_string-Decodes x.cp c)))
      (Octets-append _ _ (bytes_request-Octets x.request) (bytes_string-Octets x.cp)) (omega arith)
      b fresh grown room

bytes_node_info-Octets : (x : NodeInfo) → Octets (bytes_node_info x)
unfolding bytes_node_info bytes_nh_info
bytes_node_info-Octets x = search fields depth 20

unfoldable pub bytes_configure_node : ConfigureNode → List ℕ
bytes_configure_node x = bytes_crd_request x.crd ++ bytes_node_info x.node_conf

-- A configure_node with fields in the range of their C++ types arrives with its header, experiment,
-- component and configuration, if its bytes fit the sender's buffer.
pub configure_node_delivered :
    (old x : ConfigureNode)
    → IsCrdRequest x.crd
    → IsNodeInfo x.node_conf
    → (b : ByteBuffer) (fresh grown : ℕ → ℕ)
    → length (bytes_configure_node x) ≤ b.num_bytes_allocated
    → Delivers
        (write_configure_node x)
        (parse_configure_node old)
        b
        fresh
        grown
        (record { crd = received_crd_request old.crd x.crd; node_conf = x.node_conf })
unfolding write_configure_node parse_configure_node bytes_configure_node
configure_node_delivered old x w c b fresh grown room =
    let header = bytes_crd_request-some x.crd in
    let size = length-append (bytes_crd_request x.crd) (bytes_node_info x.node_conf) in
    deliver (write_configure_node x) _ (bytes_configure_node x) _
      (simp (write_crd_request-emit, put_node_info-emit, emit-append))
      (Decodes-bind _ (parse_crd_request-Decodes old.crd x.crd w)
        (Decodes-map _ (get_node_info-Decodes x.node_conf c)))
      (Octets-append _ _ (bytes_crd_request-Octets x.crd) (bytes_node_info-Octets x.node_conf))
      (omega arith) b fresh grown room

module _ {D : Type 0} where
  unfoldable pub bytes_start_experiment : StartExperiment D → List ℕ
  bytes_start_experiment x =
      bytes_crd_request x.crd
      ++ (bytes_string x.ipaddr
          ++ (bytes_params x.init_params ++ (bytes32 x.cores ++ bytes32 x.memory)))

  write_start_experiment-emit :
      (x : StartExperiment D) → write_start_experiment x ≡ emit (bytes_start_experiment x)
  unfolding write_start_experiment bytes_start_experiment
  write_start_experiment-emit x =
      simp (write_crd_request-emit, put_string-emit, put_params-emit, put32-emit, emit-append)

  pub record IsStartExperiment (x : StartExperiment D) : Type 0 where
    pub crd : IsCrdRequest x.crd
    pub ipaddr : IsNccpString x.ipaddr
    pub cores : x.cores < 2 ^ 32
    pub memory : x.memory < 2 ^ 32
    pub few : length x.init_params < 2 ^ 32
    pub init_params : All IsParam x.init_params

-- A start_experiment with fields in the range of their C++ types arrives, if its bytes fit the sender's
-- buffer: its header, experiment, component, address and sizes as sent, and its parameters, behind
-- those that the receiving object had, with the values that their types select.
pub start_experiment_delivered :
    {D : Type 0} (atof : List ℕ → D) (zero_double : D) (old x : StartExperiment D)
    → IsStartExperiment x
    → (b : ByteBuffer) (fresh grown : ℕ → ℕ)
    → length (bytes_start_experiment x) ≤ b.num_bytes_allocated
    → Delivers
        (write_start_experiment x)
        (parse_start_experiment atof zero_double old)
        b
        fresh
        grown
        (record {
          crd = received_crd_request old.crd x.crd;
          ipaddr = x.ipaddr;
          cores = x.cores;
          memory = x.memory;
          init_params =
              old.init_params ++ map (received atof (new_param zero_double)) x.init_params;
        })
unfolding parse_start_experiment bytes_start_experiment
start_experiment_delivered atof zero_double old x w b fresh grown room =
    let header = bytes_crd_request-some x.crd in
    let size = length-append (bytes_crd_request x.crd) (
      bytes_string x.ipaddr
      ++ (bytes_params x.init_params ++ (bytes32 x.cores ++ bytes32 x.memory))) in
    deliver _ _ (bytes_start_experiment x) _ (write_start_experiment-emit x)
      (Decodes-bind _ (parse_crd_request-Decodes old.crd x.crd w.crd) (
        Decodes-bind _ (get_string-Decodes x.ipaddr w.ipaddr) (
          Decodes-bind _
            (get_params-Decodes atof zero_double x.init_params old.init_params w.few w.init_params)
            (Decodes-bind _ (get32-Decodes x.cores w.cores)
              (Decodes-map _ (get32-Decodes x.memory w.memory))))))
      (search (octets, bytes_crd_request-Octets, bytes_string-Octets, bytes_params-Octets))
      (omega arith) b fresh grown room

-- Writing a start_experiment from an index inside the array reaches outside the array exactly when its
-- bytes are more than the room that is left.
pub start_experiment_overrun :
    {D : Type 0} (x : StartExperiment D) (b : ByteBuffer)
    → b.cur_index ≤ b.num_bytes_allocated
    → (write_start_experiment x b ≡ none)
      ↔ (b.num_bytes_allocated < b.cur_index + length (bytes_start_experiment x))
start_experiment_overrun x b inside = overrun_iff _ _ (write_start_experiment-emit x) b inside

module _ {D : Type 0} where
  unfoldable pub bytes_refresh : Refresh D → List ℕ
  bytes_refresh x = bytes_crd_request x.crd ++ bytes_params x.reboot_params

-- A refresh with fields in the range of their C++ types arrives with its header, experiment and
-- component, and its parameters, behind those that the receiving object had, with the values that
-- their types select, if its bytes fit the sender's buffer.
pub refresh_delivered :
    {D : Type 0} (atof : List ℕ → D) (zero_double : D) (old x : Refresh D)
    → IsCrdRequest x.crd
    → length x.reboot_params < 2 ^ 32
    → All IsParam x.reboot_params
    → (b : ByteBuffer) (fresh grown : ℕ → ℕ) → length (bytes_refresh x) ≤ b.num_bytes_allocated
    → Delivers (write_refresh x) (parse_refresh atof zero_double old) b fresh grown (record {
      crd = received_crd_request old.crd x.crd;
      reboot_params =
          old.reboot_params ++ map (received atof (new_param zero_double)) x.reboot_params;
    })
unfolding write_refresh parse_refresh bytes_refresh
refresh_delivered atof zero_double old x w few ps b fresh grown room =
    let header = bytes_crd_request-some x.crd in
    let size = length-append (bytes_crd_request x.crd) (bytes_params x.reboot_params) in
    deliver (write_refresh x) _ (bytes_refresh x) _
      (simp (write_crd_request-emit, put_params-emit, emit-append))
      (Decodes-bind _ (parse_crd_request-Decodes old.crd x.crd w) (
        Decodes-map _
          (get_params-Decodes atof zero_double x.reboot_params old.reboot_params few ps)))
      (Octets-append _ _ (bytes_crd_request-Octets x.crd) (bytes_params-Octets x.reboot_params))
      (omega arith) b fresh grown room
