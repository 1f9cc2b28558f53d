-- ===== src/Shared/OnlTypes/Codec.antt =====
-- Each operator<< sends the bytes of its value, and each operator>> makes the value of them.
use onldaemons.Prelude.{
  ℕ, suc, ◌+◌, ◌^◌, ◌≤◌, ◌<◌, ◌≡◌, Bool, true, false, List, [], ◌∷◌, All, arith, length, lt→ltb,
}
use onldaemons.Shared.ByteBuffer.Emit.{
  emit, emit-append, emit-nil, put8-emit, put32-emit, put_bool-emit,
}
use onldaemons.Shared.ByteBuffer.Holds.{
  Decodes, Decodes-bind, Decodes-map, Decodes-pure, get8-Decodes, get32-Decodes, get_bool-Decodes,
}
use onldaemons.Shared.NccpString.{put_string-emit, get_string-Decodes}
use onldaemons.Shared.OnlTypes.{
  ExperimentInfo, Component, Cluster, Experiment, NhInfo, NodeInfo, put_flag, get_flag,
  put_experiment_info, get_experiment_info, put_component, get_component, put_hardware,
  get_hardware, put_cluster, get_cluster, put_experiment, get_experiment, put_nh_info, get_nh_info,
  put_node_info, get_node_info,
}
use onldaemons.Shared.OnlTypes.Valid.{
  IsExperimentInfo, IsComponent, IsCluster, IsExperiment, IsNhInfo, IsNodeInfo, bytes_flag,
  bytes_experiment_info, bytes_component, bytes_hardware, bytes_cluster, bytes_experiment,
  bytes_nh_info, bytes_node_info,
}

pub put_flag-emit : (b : Bool) → put_flag b ≡ emit (bytes_flag b)
unfolding put_flag bytes_flag
put_flag-emit true = put8-emit 1
put_flag-emit false = put8-emit 0

pub get_flag-Decodes : (b : Bool) → Decodes get_flag (bytes_flag b) b
unfolding get_flag bytes_flag
get_flag-Decodes true = Decodes-map _ (get8-Decodes 1 (omega arith))
get_flag-Decodes false = Decodes-map _ (get8-Decodes 0 (omega arith))

pub put_experiment_info-emit :
    (x : ExperimentInfo) → put_experiment_info x ≡ emit (bytes_experiment_info x)
unfolding put_experiment_info bytes_experiment_info
put_experiment_info-emit x = simp (put_string-emit, emit-append)

pub get_experiment_info-Decodes :
    (x : ExperimentInfo)
    → IsExperimentInfo x
    → Decodes get_experiment_info (bytes_experiment_info x) x
unfolding get_experiment_info bytes_experiment_info
get_experiment_info-Decodes x w = Decodes-bind _ (get_string-Decodes _ w.exp_id) (
    Decodes-bind _ (get_string-Decodes _ w.exp_name)
      (Decodes-map _ (get_string-Decodes _ w.user_name)))

pub put_component-emit : (x : Component) → put_component x ≡ emit (bytes_component x)
unfolding put_component bytes_component
put_component-emit x = simp (put_string-emit, put32-emit, put_flag-emit, emit-append)

pub get_component-Decodes :
    (x : Component) → IsComponent x → Decodes get_component (bytes_component x) x
unfolding get_component bytes_component
get_component-Decodes x w = Decodes-bind _ (get_string-Decodes _ w.ctype) (
    Decodes-bind _ (get32-Decodes _ w.id) (
      Decodes-bind _ (get32-Decodes _ w.parent) (
        Decodes-bind _ (get_string-Decodes _ w.label)
          (Decodes-bind _ (get_string-Decodes _ w.cp) (Decodes-map _ (get_flag-Decodes _))))))

pub put_experiment-emit : (x : Experiment) → put_experiment x ≡ emit (bytes_experiment x)
unfolding put_experiment bytes_experiment
put_experiment-emit x = simp (put_string-emit, put32-emit, put_experiment_info-emit, emit-append)

pub get_experiment-Decodes :
    (x : Experiment) → IsExperiment x → Decodes get_experiment (bytes_experiment x) x
unfolding get_experiment bytes_experiment
get_experiment-Decodes x w =
    Decodes-bind _ (get_string-Decodes _ w.addr) (
      Decodes-bind _ (get32-Decodes _ w.port)
        (Decodes-map _ (get_experiment_info-Decodes _ w.info)))

pub put_nh_info-emit : (x : NhInfo) → put_nh_info x ≡ emit (bytes_nh_info x)
unfolding put_nh_info bytes_nh_info
put_nh_info-emit x = simp (put_string-emit, put_bool-emit, emit-append)

pub get_nh_info-Decodes : (x : NhInfo) → IsNhInfo x → Decodes get_nh_info (bytes_nh_info x) x
unfolding get_nh_info bytes_nh_info
get_nh_info-Decodes x w = Decodes-bind _ (get_string-Decodes _ w.ipaddr) (
    Decodes-bind _ (get_string-Decodes _ w.ntype) (
      Decodes-bind _ (get_bool-Decodes _) (
        Decodes-bind _ (get_string-Decodes _ w.mac_addr)
          (Decodes-map _ (get_string-Decodes _ w.dev_ipaddr)))))

pub put_node_info-emit : (x : NodeInfo) → put_node_info x ≡ emit (bytes_node_info x)
unfolding put_node_info bytes_node_info
put_node_info-emit x = simp (put_string-emit, put32-emit, put_nh_info-emit, emit-append)

pub get_node_info-Decodes :
    (x : NodeInfo) → IsNodeInfo x → Decodes get_node_info (bytes_node_info x) x
unfolding get_node_info bytes_node_info
get_node_info-Decodes x w = Decodes-bind _ (get_string-Decodes _ w.ipaddr) (
    Decodes-bind _ (get_string-Decodes _ w.subnet) (
      Decodes-bind _ (get32-Decodes _ w.port) (
        Decodes-bind _ (get_nh_info-Decodes _ w.nexthop) (
          Decodes-bind _ (get32-Decodes _ w.real_port) (
            Decodes-bind _ (get32-Decodes _ w.vlanid) (
              Decodes-bind _ (get32-Decodes _ w.bandwidth)
                (Decodes-map _ (get_string-Decodes _ w.dev_ipaddr))))))))

put_hardware-emit :
    (i : ℕ) (hs : List ℕ) → i + length hs ≤ 255 → put_hardware i hs ≡ emit (bytes_hardware hs)
unfolding put_hardware bytes_hardware
put_hardware-emit i [] le = emit-nil
put_hardware-emit i (h ∷ hs) le =
    rw (lt→ltb i 255 (omega arith))
      (simp (put32-emit, put_hardware-emit (suc i) hs (omega arith), emit-append))

get_hardware-Decodes :
    (i : ℕ) (hs : List ℕ)
    → i + length hs ≤ 255
    → All (λ h. h < 2 ^ 32) hs
    → Decodes (get_hardware i (length hs)) (bytes_hardware hs) hs
unfolding get_hardware bytes_hardware
get_hardware-Decodes i [] le v = Decodes-pure []
get_hardware-Decodes i (h ∷ hs) le v = rw (lt→ltb i 255 (omega arith)) (
    Decodes-bind _ (get32-Decodes h v.0)
      (Decodes-map _ (get_hardware-Decodes (suc i) hs (omega arith) v.1)))

pub put_cluster-emit :
    (x : Cluster) → length x.hardware ≤ 255 → put_cluster x ≡ emit (bytes_cluster x)
unfolding put_cluster bytes_cluster
put_cluster-emit x le =
    simp (put_component-emit, put32-emit, put_hardware-emit 0 x.hardware (omega arith), emit-append)

pub get_cluster-Decodes : (x : Cluster) → IsCluster x → Decodes get_cluster (bytes_cluster x) x
unfolding get_cluster bytes_cluster
get_cluster-Decodes x w = Decodes-bind _ (get_component-Decodes _ w.component) (
    Decodes-bind _ (get32-Decodes _ (let h = w.in_range in omega arith))
      (Decodes-map _ (get_hardware-Decodes 0 _ (let h = w.in_range in omega arith) w.hardware)))
