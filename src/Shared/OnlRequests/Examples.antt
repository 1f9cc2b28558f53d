-- ===== src/Shared/OnlRequests/Examples.antt =====
-- The theorems on the requests of shared/onl_requests.cc at concrete values.
use onldaemons.Prelude.{◌++◌, ℕ, ◌+◌, ◌<◌, ◌≡◌, ◌↔◌, false, none, List, [], ◌∷◌, map, arith, length}
use onldaemons.Prelude.Codes.{codes}
use onldaemons.Shared.ByteBuffer.{ByteBuffer}
use onldaemons.Shared.ByteBuffer.Emit.{bytes8, bytes16, bytes32, bytes_bool, bytes_timeval}
use onldaemons.Shared.Rendezvous.{of_id, no_rendezvous, bytes_rendezvous}
use onldaemons.Shared.NccpString.{NccpString, empty, bytes_string}
use onldaemons.Shared.OnlTypes.{NodeInfo}
use onldaemons.Shared.OnlTypes.Valid.{
  bytes_flag, bytes_experiment, bytes_experiment_info, bytes_component,
}
use onldaemons.Shared.Params.{Param, new_param}
use onldaemons.Shared.Params.Codec.{received, bytes_params, bytes_each, bytes_param}
use onldaemons.Shared.Message.{Request}
use onldaemons.Shared.Message.Codec.{bytes_message, bytes_request}
use onldaemons.Shared.Message.Wire.{Delivers}
use onldaemons.Shared.OnlRequests.{
  IAmUp, CrdRequest, ConfigureNode, StartExperiment, parse_start_experiment, write_start_experiment,
  Refresh,
}
use onldaemons.Shared.OnlRequests.Codec.{bytes_crd_request, received_crd_request}
use onldaemons.Shared.OnlRequests.Delivery.{
  bytes_start_experiment, start_experiment_delivered, start_experiment_overrun,
}

abbrev zeros : ℕ → ℕ
zeros i = 0

abbrev blank : ByteBuffer
blank = record {
  num_bytes_allocated = 2048;
  num_bytes_stored = 0;
  cur_index = 0;
  buffer_data = zeros;
}

abbrev text : List ℕ → NccpString
text s = record { nccp_str = s }

abbrev header : Request
header = record {
  message = record {
    mtype = 1;
    version = 0;
    op = 55;
    rend = of_id 55 1;
    periodic_message = false;
    return_rend = no_rendezvous;
  };
  period = record { tv_sec = 0; tv_usec = 0 };
  received_response = false;
  received_stop = false;
  received_ack = false;
  timeout = 30;
  resp = none;
}

abbrev crd : CrdRequest
crd = record {
  request = header;
  exp = record {
    addr = text (codes "10.0.1.2");
    port = 3555;
    info = record {
      exp_id = text (codes "17");
      exp_name = text (codes "demo");
      user_name = text (codes "jp");
    };
  };
  comp = record {
    ctype = text (codes "PC");
    id = 3;
    parent = 0;
    label = text (codes "h1");
    cp = empty;
    is_router = false;
  };
}

abbrev host : NodeInfo
host = record {
  ipaddr = text (codes "192.168.1.16");
  dev_ipaddr = empty;
  subnet = text (codes "255.255.255.0");
  port = 0;
  real_port = 2;
  vlanid = 5;
  bandwidth = 1000;
  nexthop = record {
    ipaddr = empty;
    ntype = text (codes "PC");
    is_router = false;
    mac_addr = empty;
    dev_ipaddr = empty;
  };
}

abbrev rate : Param ℕ
rate = record { pt = 1; int_val = 500; double_val = 0; bool_val = false; string_val = empty }

abbrev up : IAmUp
up = record { request = header; cp = text (codes "h1") }

abbrev configure : ConfigureNode
configure = record { crd = crd; node_conf = host }

abbrev start : StartExperiment ℕ
start = record {
  crd = crd;
  ipaddr = text (codes "10.0.1.9");
  cores = 2;
  memory = 1024;
  init_params = rate ∷ [];
}

start_experiment_delivered_example :
    Delivers
      (write_start_experiment start)
      (parse_start_experiment length 0 start)
      blank
      zeros
      zeros
      (record {
        crd = received_crd_request crd crd;
        ipaddr = text (codes "10.0.1.9");
        cores = 2;
        memory = 1024;
        init_params = (rate ∷ []) ++ map (received length (new_param 0)) (rate ∷ []);
      })
unfolding bytes_crd_request bytes_request bytes_message bytes_rendezvous bytes_experiment
    bytes_experiment_info bytes_component bytes_string bytes_flag bytes8 bytes16 bytes32 bytes_bool
    bytes_timeval of_id bytes_start_experiment bytes_params bytes_each bytes_param
start_experiment_delivered_example =
    start_experiment_delivered length 0 start start (omega arith) blank zeros zeros (omega arith)

start_experiment_overrun_example :
    (write_start_experiment start blank ≡ none) ↔ (2048 < 0 + length (bytes_start_experiment start))
start_experiment_overrun_example = start_experiment_overrun start blank (omega arith)

abbrev reboot : Refresh ℕ
reboot = record { crd = crd; reboot_params = rate ∷ [] }
