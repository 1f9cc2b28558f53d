-- ===== src/Shared/OnlRequests.antt =====
-- shared/onl_requests.h and shared/onl_requests.cc: the requests that the daemon of the testbed sends to
-- the daemons of its machines. Each adds its fields behind those of its base class.
pub mod Codec
pub mod Delivery
pub mod Examples
use onldaemons.Prelude.{ℕ, List}
use onldaemons.Shared.ByteBuffer.{Buf, pure, ◌>>=◌, ◌>>◌, put32, get32, get16}
use onldaemons.Shared.NccpString.{NccpString, put_string, get_string_from}
use onldaemons.Shared.OnlTypes.{
  Experiment, Component, NodeInfo, put_experiment, get_experiment, put_component, get_component,
  put_node_info, get_node_info,
}
use onldaemons.Shared.Params.{Param, put_params, get_params}
use onldaemons.Shared.Message.{Request, parse_request, write_request}

pub record IAmUp : Type 0 where
  pub request : Request
  pub cp : NccpString

pub parse_i_am_up : IAmUp → Buf IAmUp
parse_i_am_up old = do
  request ← parse_request old.request
  cp ← get_string_from
  pure (record { request = request; cp = cp })

pub write_i_am_up : IAmUp → Buf (Unit {0})
write_i_am_up x = do write_request x.request; put_string x.cp

pub record CrdRequest : Type 0 where
  pub request : Request
  pub exp : Experiment
  pub comp : Component

-- Also end_experiment and end_configure_node, which add nothing.
pub parse_crd_request : CrdRequest → Buf CrdRequest
parse_crd_request old = do
  request ← parse_request old.request
  exp ← get_experiment
  comp ← get_component
  pure (record { request = request; exp = exp; comp = comp })

pub write_crd_request : CrdRequest → Buf (Unit {0})
write_crd_request x = do write_request x.request; put_experiment x.exp; put_component x.comp

pub record ConfigureNode : Type 0 where
  pub crd : CrdRequest
  pub node_conf : NodeInfo

pub parse_configure_node : ConfigureNode → Buf ConfigureNode
parse_configure_node old = do
  crd ← parse_crd_request old.crd
  node_conf ← get_node_info
  pure (record { crd = crd; node_conf = node_conf })

pub write_configure_node : ConfigureNode → Buf (Unit {0})
write_configure_node x = do write_crd_request x.crd; put_node_info x.node_conf

pub record StartExperiment (D : Type 0) : Type 0 where
  pub crd : CrdRequest
  pub ipaddr : NccpString
  pub cores : ℕ
  pub memory : ℕ
  pub init_params : List (Param D)

pub record Refresh (D : Type 0) : Type 0 where
  pub crd : CrdRequest
  pub reboot_params : List (Param D)

module _ {D : Type 0} where
  pub write_start_experiment : StartExperiment D → Buf (Unit {0})
  write_start_experiment x = do
    write_crd_request x.crd
    put_string x.ipaddr
    put_params x.init_params
    put32 x.cores
    put32 x.memory

  pub write_refresh : Refresh D → Buf (Unit {0})
  write_refresh x = do write_crd_request x.crd; put_params x.reboot_params

module _ {D : Type 0} (atof : List ℕ → D) (zero_double : D) where
  pub parse_start_experiment : StartExperiment D → Buf (StartExperiment D)
  parse_start_experiment old = do
    crd ← parse_crd_request old.crd
    ipaddr ← get_string_from
    init_params ← get_params atof zero_double old.init_params
    cores ← get32
    memory ← get32
    pure (record {
      crd = crd;
      ipaddr = ipaddr;
      cores = cores;
      memory = memory;
      init_params = init_params;
    })

  pub parse_refresh : Refresh D → Buf (Refresh D)
  parse_refresh old = do
    crd ← parse_crd_request old.crd
    reboot_params ← get_params atof zero_double old.reboot_params
    pure (record { crd = crd; reboot_params = reboot_params })
