-- ===== src/Shared/Examples.antt =====
-- The theorems on shared/ at concrete values, and runs of its operators.
use onldaemons.Prelude.{not, ℕ, ◌≡◌, refl, true, false, none, List, [], ◌∷◌, arith, get_or}
use onldaemons.Prelude.Codes.{codes}
use onldaemons.Shared.ByteBuffer.{ByteBuffer}
use onldaemons.Shared.ByteBuffer.Emit.{bytes32}
use onldaemons.Shared.Rendezvous.{no_rendezvous}
use onldaemons.Shared.NccpString.{NccpString, empty}
use onldaemons.Shared.OnlTypes.{Component, Cluster, Experiment, NodeInfo, parse_extra}
use onldaemons.Shared.OnlTypes.Overrun.{parse_extra_overrun}
use onldaemons.Shared.Params.{Param}
use onldaemons.Shared.SwitchTypes.{SwitchPort}
use onldaemons.Shared.Message.{
  Message, Request, write_request, parse_request, write_response, parse_response,
}
use onldaemons.Shared.Message.Codec.{received_request, received_response}
use onldaemons.Shared.Message.Wire.{Delivers}
use onldaemons.Shared.Message.Delivery.{request_delivered, response_delivered}
use onldaemons.Prelude.Int.{pos, ◌-ℤ◌, ltb_ℤ}
use onldaemons.Shared.Time.{Timespec, IsTimespec, timespec_diff, total}
use onldaemons.Shared.Time.Exact.{timespec_diff_lem}

abbrev zeros : ℕ → ℕ
zeros i = 0

abbrev blank : ByteBuffer
blank = record {
  num_bytes_allocated = 2048;
  num_bytes_stored = 0;
  cur_index = 0;
  buffer_data = zeros;
}

abbrev text : List ℕ → NccpString
text s = record { nccp_str = s }

abbrev router : Component
router = record {
  ctype = text (codes "NPR");
  id = 3;
  parent = 0;
  label = text (codes "r1");
  cp = empty;
  is_router = true;
}

abbrev lab : Experiment
lab = record {
  addr = text (codes "10.0.1.2");
  port = 3555;
  info = record {
    exp_id = text (codes "17");
    exp_name = text (codes "demo");
    user_name = text (codes "jp");
  };
}

abbrev host_port : NodeInfo
host_port = record {
  ipaddr = text (codes "192.168.1.16");
  dev_ipaddr = empty;
  subnet = text (codes "255.255.255.0");
  port = 0;
  real_port = 2;
  vlanid = 5;
  bandwidth = 1000;
  nexthop = record {
    ipaddr = text (codes "192.168.1.17");
    ntype = text (codes "PC");
    is_router = false;
    mac_addr = empty;
    dev_ipaddr = empty;
  };
}

abbrev uplink : SwitchPort
uplink = record {
  switchid = text (codes "sw1");
  port = 7;
  is_interswitch_port = true;
  pass_tag = false;
}

abbrev rack : Cluster
rack = record { component = router; hardware = 4 ∷ 9 ∷ [] }

abbrev rate : Param ℕ
rate = record { pt = 1; int_val = 500; double_val = 0; bool_val = false; string_val = empty }

abbrev comment : Param ℕ
comment = record {
  pt = 4;
  int_val = 0;
  double_val = 0;
  bool_val = false;
  string_val = text (codes "fast");
}

-- A buffer with four bytes left.
abbrev almost_full : ByteBuffer
almost_full = record {
  num_bytes_allocated = 2048;
  num_bytes_stored = 2044;
  cur_index = 2044;
  buffer_data = zeros;
}

-- A message that announces 300 pieces of hardware.
abbrev oversized : ByteBuffer
oversized = record {
  num_bytes_allocated = 2048;
  num_bytes_stored = 4;
  cur_index = 0;
  buffer_data = λ i. get_or (0 ∷ 0 ∷ 1 ∷ 44 ∷ []) i 0;
}

parse_extra_overrun_example : parse_extra router oversized ≡ none
unfolding bytes32
parse_extra_overrun_example =
    parse_extra_overrun router 300 oversized (omega arith) (omega arith)
      (record { fits = omega arith; bytes = (refl, (refl, (refl, (refl, tt)))) })

abbrev ping : Message
ping = record {
  mtype = 1;
  version = 1;
  op = 41;
  rend = record no_rendezvous { id = 41; seq = 9 };
  periodic_message = true;
  return_rend = no_rendezvous;
}

abbrev nothing : Message
nothing = record {
  mtype = 0;
  version = 0;
  op = 0;
  rend = no_rendezvous;
  periodic_message = false;
  return_rend = no_rendezvous;
}

abbrev every_second : Request
every_second = record {
  message = ping;
  period = record { tv_sec = 1; tv_usec = 0 };
  received_response = false;
  received_stop = false;
  received_ack = false;
  timeout = 30;
  resp = none;
}

abbrev blank_request : Request
blank_request = record {
  message = nothing;
  period = record { tv_sec = 0; tv_usec = 0 };
  received_response = false;
  received_stop = false;
  received_ack = false;
  timeout = 30;
  resp = none;
}

request_delivered_example :
    Delivers
      (write_request every_second)
      (parse_request blank_request)
      blank
      zeros
      zeros
      (received_request blank_request every_second)
request_delivered_example =
    request_delivered blank_request every_second (omega arith) blank zeros zeros (omega arith)

response_delivered_example :
    Delivers
      (write_response (record { message = ping; end_of_message = false }))
      (parse_response (record { message = nothing; end_of_message = true }))
      blank
      zeros
      zeros
      (received_response
        (record { message = nothing; end_of_message = true })
        (record { message = ping; end_of_message = false }))
response_delivered_example =
    response_delivered (record { message = nothing; end_of_message = true })
      (record { message = ping; end_of_message = false }) (omega arith) blank zeros zeros
      (omega arith)

-- 1.7 s and 2.8 s
abbrev early : Timespec
early = record { tv_sec = pos 1; tv_nsec = pos 700000000 }

abbrev late : Timespec
late = record { tv_sec = pos 2; tv_nsec = pos 800000000 }

timespec_diff_lem_example :
    let (result, ok) = timespec_diff early late in
    IsTimespec result
    × (total result ≡ total early -ℤ total late)
    × (ok ≡ not (ltb_ℤ (total early) (total late)))
timespec_diff_lem_example =
    timespec_diff_lem early late (record { nonneg = refl; below = omega arith })
      (record { nonneg = refl; below = omega arith })
