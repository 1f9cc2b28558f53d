-- ===== src/Shared/OnlTypes/Valid.antt =====
-- The values that the fields of the C++ types can hold, and the bytes that each value is sent as.
use onldaemons.Prelude.{ℕ, ◌^◌, ◌≤◌, ◌<◌, Bool, List, [], ◌∷◌, ◌++◌, All, length, if◌then◌else◌}
use onldaemons.Shared.ByteBuffer.Emit.{bytes8, bytes32, bytes_bool}
use onldaemons.Shared.NccpString.{IsNccpString, bytes_string}
use onldaemons.Shared.OnlTypes.{ExperimentInfo, Component, Cluster, Experiment, NhInfo, NodeInfo}

unfoldable pub bytes_flag : Bool → List ℕ
bytes_flag b = if b then bytes8 1 else bytes8 0

pub record IsExperimentInfo (x : ExperimentInfo) : Type 0 where
  pub exp_id : IsNccpString x.exp_id
  pub exp_name : IsNccpString x.exp_name
  pub user_name : IsNccpString x.user_name

unfoldable pub bytes_experiment_info : ExperimentInfo → List ℕ
bytes_experiment_info x =
    bytes_string x.exp_id ++ (bytes_string x.exp_name ++ bytes_string x.user_name)

pub record IsComponent (x : Component) : Type 0 where
  pub ctype : IsNccpString x.ctype
  pub id : x.id < 2 ^ 32
  pub parent : x.parent < 2 ^ 32
  pub label : IsNccpString x.label
  pub cp : IsNccpString x.cp

unfoldable pub bytes_component : Component → List ℕ
bytes_component x =
    bytes_string x.ctype
    ++ (bytes32 x.id
        ++ (bytes32 x.parent
            ++ (bytes_string x.label ++ (bytes_string x.cp ++ bytes_flag x.is_router))))

pub record IsExperiment (x : Experiment) : Type 0 where
  pub addr : IsNccpString x.addr
  pub port : x.port < 2 ^ 32
  pub info : IsExperimentInfo x.info

unfoldable pub bytes_experiment : Experiment → List ℕ
bytes_experiment x = bytes_string x.addr ++ (bytes32 x.port ++ bytes_experiment_info x.info)

pub record IsNhInfo (x : NhInfo) : Type 0 where
  pub ipaddr : IsNccpString x.ipaddr
  pub ntype : IsNccpString x.ntype
  pub mac_addr : IsNccpString x.mac_addr
  pub dev_ipaddr : IsNccpString x.dev_ipaddr

unfoldable pub bytes_nh_info : NhInfo → List ℕ
bytes_nh_info x =
    bytes_string x.ipaddr
    ++ (bytes_string x.ntype
        ++ (bytes_bool x.is_router ++ (bytes_string x.mac_addr ++ bytes_string x.dev_ipaddr)))

pub record IsNodeInfo (x : NodeInfo) : Type 0 where
  pub ipaddr : IsNccpString x.ipaddr
  pub subnet : IsNccpString x.subnet
  pub port : x.port < 2 ^ 32
  pub nexthop : IsNhInfo x.nexthop
  pub real_port : x.real_port < 2 ^ 32
  pub vlanid : x.vlanid < 2 ^ 32
  pub bandwidth : x.bandwidth < 2 ^ 32
  pub dev_ipaddr : IsNccpString x.dev_ipaddr

unfoldable pub bytes_node_info : NodeInfo → List ℕ
bytes_node_info x =
    bytes_string x.ipaddr
    ++ (bytes_string x.subnet
        ++ (bytes32 x.port
            ++ (bytes_nh_info x.nexthop
                ++ (bytes32 x.real_port
                    ++ (bytes32 x.vlanid ++ (bytes32 x.bandwidth ++ bytes_string x.dev_ipaddr))))))

pub record IsCluster (x : Cluster) : Type 0 where
  pub component : IsComponent x.component
  pub hardware : All (λ h. h < 2 ^ 32) x.hardware
  pub in_range : length x.hardware ≤ 255

unfoldable pub bytes_hardware : List ℕ → List ℕ
bytes_hardware [] = []
bytes_hardware (h ∷ hs) = bytes32 h ++ bytes_hardware hs

unfoldable pub bytes_cluster : Cluster → List ℕ
bytes_cluster x =
    bytes_component x.component ++ (bytes32 (length x.hardware) ++ bytes_hardware x.hardware)
