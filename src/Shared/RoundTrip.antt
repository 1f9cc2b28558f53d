-- ===== src/Shared/RoundTrip.antt =====
-- The operators << and >> of shared/ are inverse to one another, and where they leave their arrays.
use onldaemons.Prelude.{ℕ, ◌+◌, ◌^◌, ◌<◌, ◌≤◌, ◌≡◌, ◌↔◌, none, List, map, ◌++◌, All, length}
use onldaemons.Shared.ByteBuffer.{ByteBuffer}
use onldaemons.Shared.ByteBuffer.Growth.{Fits, Restores, read-write, overrun_iff}
use onldaemons.Shared.OnlTypes.{
  Component, Cluster, Experiment, NodeInfo, put_experiment, get_experiment, put_node_info,
  get_node_info, put_component, get_component, put_cluster, get_cluster,
}
use onldaemons.Shared.OnlTypes.Valid.{
  IsComponent, IsCluster, IsExperiment, IsNodeInfo, bytes_component, bytes_cluster,
  bytes_experiment, bytes_node_info,
}
use onldaemons.Shared.OnlTypes.Codec.{
  put_component-emit, get_component-Decodes, put_cluster-emit, get_cluster-Decodes,
  put_experiment-emit, get_experiment-Decodes, put_node_info-emit, get_node_info-Decodes,
}
use onldaemons.Shared.Params.{Param, new_param, put_params, get_params}
use onldaemons.Shared.Params.Codec.{
  IsParam, received, bytes_params, put_params-emit, get_params-Decodes,
}
use onldaemons.Shared.SwitchTypes.{
  SwitchPort, IsSwitchPort, put_switch_port, get_switch_port, bytes_switch_port,
  put_switch_port-emit, get_switch_port-Decodes,
}

-- A component whose fields are in the range of their C++ types,
-- written into a buffer with room for it at the index, is read back whole from where the writing
-- started, and the reader ends where the writer ended.
pub component_round_trip :
    (c : Component)
    → IsComponent c
    → (b : ByteBuffer) → Fits (bytes_component c) b
    → Restores (put_component c) get_component b c
component_round_trip c w b fits =
    read-write _ _ _ c (put_component-emit c) (get_component-Decodes c w) b fits

-- An experiment (its address, its port and the three names of its information) whose fields are in the range
-- of their C++ types, written into a buffer with room for it at the index, is read back whole from where the writing
-- started, and the reader ends where the writer ended.
pub experiment_round_trip :
    (e : Experiment)
    → IsExperiment e
    → (b : ByteBuffer) → Fits (bytes_experiment e) b
    → Restores (put_experiment e) get_experiment b e
experiment_round_trip e w b fits =
    read-write _ _ _ e (put_experiment-emit e) (get_experiment-Decodes e w) b fits

-- A node's configuration, its next hop included, whose fields are in the range of their C++ types,
-- written into a buffer with room for it at the index, is read back whole from where the writing
-- started, and the reader ends where the writer ended.
pub node_info_round_trip :
    (ni : NodeInfo)
    → IsNodeInfo ni
    → (b : ByteBuffer) → Fits (bytes_node_info ni) b
    → Restores (put_node_info ni) get_node_info b ni
node_info_round_trip ni w b fits =
    read-write _ _ _ ni (put_node_info-emit ni) (get_node_info-Decodes ni w) b fits

-- A switch port whose fields are in the range of their C++ types,
-- written into a buffer with room for it at the index, is read back whole from where the writing
-- started, and the reader ends where the writer ended.
pub switch_port_round_trip :
    (sp : SwitchPort)
    → IsSwitchPort sp
    → (b : ByteBuffer) → Fits (bytes_switch_port sp) b
    → Restores (put_switch_port sp) get_switch_port b sp
switch_port_round_trip sp w b fits =
    read-write _ _ _ sp (put_switch_port-emit sp) (get_switch_port-Decodes sp w) b fits

-- A cluster with at most 255 pieces of hardware, whose fields are in the range of their C++ types,
-- written into a buffer with room for it at the index, is read back whole from where the writing
-- started, and the reader ends where the writer ended.
pub cluster_round_trip :
    (c : Cluster)
    → IsCluster c
    → (b : ByteBuffer) → Fits (bytes_cluster c) b
    → Restores (put_cluster c) get_cluster b c
cluster_round_trip c w b fits =
    read-write _ _ _ c (put_cluster-emit c w.in_range) (get_cluster-Decodes c w) b fits

-- A list of parameters of known types, with fields in the range of their C++ types, written into a
-- buffer with room for it, is read back behind the parameters that the list has, where each has the
-- type sent and the value that the type selects, and the defaults elsewhere; a double is `atof` of its
-- text.
pub params_round_trip :
    {D : Type 0} (atof : List ℕ → D) (zero_double : D) (ps plist : List (Param D))
    → length ps < 2 ^ 32
    → All IsParam ps
    → (b : ByteBuffer) → Fits (bytes_params ps) b
    → Restores
        (put_params ps)
        (get_params atof zero_double plist)
        b
        (plist ++ map (received atof (new_param zero_double)) ps)
params_round_trip atof zero_double ps plist short w b fits =
    read-write _ _ _ _ (put_params-emit ps) (get_params-Decodes atof zero_double ps plist short w) b
      fits

-- From an index inside the array, writing a list of parameters reaches outside the array exactly
-- when its bytes are more than the room that is left: the buffer does not grow.
pub params_overrun :
    {D : Type 0} (ps : List (Param D)) (b : ByteBuffer)
    → b.cur_index ≤ b.num_bytes_allocated
    → (put_params ps b ≡ none) ↔ (b.num_bytes_allocated < b.cur_index + length (bytes_params ps))
params_overrun ps b inside = overrun_iff _ _ (put_params-emit ps) b inside
