-- ===== src/Shared/OnlTypes.antt =====
-- shared/onl_types.cc: the compound values that the daemons exchange, field by field.
pub mod Valid
pub mod Codec
pub mod Overrun
use onldaemons.Prelude.{
  ℕ, zero, suc, Bool, true, false, not, ◌&&◌, Option, none, some, List, [], ◌∷◌, ltb,
  ◌==◌ as nat_eq, if◌then◌else◌, length,
}
use onldaemons.Shared.ByteBuffer.{
  Buf, pure, ◌>>=◌, ◌>>◌, put8, put32, put_bool, get8, get32, get_bool,
}
use onldaemons.Shared.NccpString.{NccpString, of_c_string, empty, ◌==◌, put_string, get_string_from}

-- A flag that is sent as one byte.
pub put_flag : Bool → Buf (Unit {0})
put_flag b = if b then put8 1 else put8 0

pub get_flag : Buf Bool
get_flag = do tmp ← get8; pure (if nat_eq tmp 0 then false else true)

pub record ExperimentInfo : Type 0 where
  pub exp_id : NccpString
  pub exp_name : NccpString
  pub user_name : NccpString

pub same_experiment : ExperimentInfo → ExperimentInfo → Bool
same_experiment a b =
    if a.exp_id == b.exp_id && a.exp_name == b.exp_name && a.user_name == b.user_name
    then true
    else false

pub put_experiment_info : ExperimentInfo → Buf (Unit {0})
put_experiment_info eid = do
  put_string eid.exp_id
  put_string eid.exp_name
  put_string eid.user_name

pub get_experiment_info : Buf ExperimentInfo
get_experiment_info = do
  exp_id ← get_string_from
  exp_name ← get_string_from
  user_name ← get_string_from
  pure (record { exp_id = exp_id; exp_name = exp_name; user_name = user_name })

pub record Component : Type 0 where
  pub ctype : NccpString
  pub id : ℕ
  pub parent : ℕ
  pub label : NccpString
  pub cp : NccpString
  pub is_router : Bool

-- component(t, i)
pub new_component : List ℕ → ℕ → Component
new_component t i = record {
  ctype = of_c_string t;
  id = i;
  parent = 0;
  label = empty;
  cp = empty;
  is_router = false;
}

pub put_component : Component → Buf (Unit {0})
unfolding put_flag
put_component c = do
  put_string c.ctype
  put32 c.id
  put32 c.parent
  put_string c.label
  put_string c.cp
  put_flag c.is_router

pub get_component : Buf Component
unfolding get_flag
get_component = do
  ctype ← get_string_from
  id ← get32
  parent ← get32
  label ← get_string_from
  cp ← get_string_from
  is_router ← get_flag
  pure (record {
    ctype = ctype;
    id = id;
    parent = parent;
    label = label;
    cp = cp;
    is_router = is_router;
  })

-- The first `numHardware` entries of `uint32_t hardware[255]`.
pub record Cluster : Type 0 where
  pub component : Component
  pub hardware : List ℕ

-- An access of `hardware` behind its end.
pub out_of_range : {A : Type 0} → Buf A
out_of_range b = none

put_hardware : ℕ → List ℕ → Buf (Unit {0})
unfolding out_of_range
put_hardware i [] = pure tt
put_hardware i (h ∷ hs) = if ltb i 255 then (do put32 h; put_hardware (suc i) hs) else out_of_range

pub put_cluster : Cluster → Buf (Unit {0})
unfolding put_hardware
put_cluster c = do put_component c.component; put32 (length c.hardware); put_hardware 0 c.hardware

-- `n` rounds of the loop, from index `i` on.
get_hardware : ℕ → ℕ → Buf (List ℕ)
unfolding out_of_range
get_hardware i zero = pure []
get_hardware i (suc n) =
    let rest = get_hardware (suc i) n in
    if ltb i 255 then (do h ← get32; hs ← rest; pure (h ∷ hs)) else out_of_range

-- parseExtra: the count comes from the message and is not compared with the array.
pub parse_extra : Component → Buf Cluster
unfolding get_hardware
parse_extra c = do n ← get32; hs ← get_hardware 0 n; pure (record { component = c; hardware = hs })

pub get_cluster : Buf Cluster
unfolding get_hardware
get_cluster = do
  c ← get_component
  n ← get32
  hs ← get_hardware 0 n
  pure (record { component = c; hardware = hs })

pub record Experiment : Type 0 where
  pub addr : NccpString
  pub port : ℕ
  pub info : ExperimentInfo

pub put_experiment : Experiment → Buf (Unit {0})
put_experiment e = do put_string e.addr; put32 e.port; put_experiment_info e.info

pub get_experiment : Buf Experiment
get_experiment = do
  addr ← get_string_from
  port ← get32
  info ← get_experiment_info
  pure (record { addr = addr; port = port; info = info })

pub record NhInfo : Type 0 where
  pub ipaddr : NccpString
  pub ntype : NccpString
  pub is_router : Bool
  pub mac_addr : NccpString
  pub dev_ipaddr : NccpString

-- nh_info::init
pub new_nh_info : List ℕ → List ℕ → Bool → List ℕ → List ℕ → NhInfo
new_nh_info ip rtype rrouter devip mac = record {
  ipaddr = of_c_string ip;
  ntype = of_c_string rtype;
  is_router = rrouter;
  mac_addr = of_c_string mac;
  dev_ipaddr = of_c_string devip;
}

pub put_nh_info : NhInfo → Buf (Unit {0})
put_nh_info ni = do
  put_string ni.ipaddr
  put_string ni.ntype
  put_bool ni.is_router
  put_string ni.mac_addr
  put_string ni.dev_ipaddr

pub get_nh_info : Buf NhInfo
get_nh_info = do
  ipaddr ← get_string_from
  ntype ← get_string_from
  is_router ← get_bool
  mac_addr ← get_string_from
  dev_ipaddr ← get_string_from
  pure (record {
    ipaddr = ipaddr;
    ntype = ntype;
    is_router = is_router;
    mac_addr = mac_addr;
    dev_ipaddr = dev_ipaddr;
  })

pub record NodeInfo : Type 0 where
  pub ipaddr : NccpString
  pub dev_ipaddr : NccpString
  pub subnet : NccpString
  pub port : ℕ
  pub real_port : ℕ
  pub vlanid : ℕ
  pub bandwidth : ℕ
  pub nexthop : NhInfo

pub set_next_hop : NodeInfo → List ℕ → Bool → List ℕ → List ℕ → List ℕ → NodeInfo
unfolding new_nh_info
set_next_hop ni rtype rrouter ip devip mac = record ni {
  nexthop = new_nh_info ip rtype rrouter devip mac;
}

pub put_node_info : NodeInfo → Buf (Unit {0})
put_node_info ni = do
  put_string ni.ipaddr
  put_string ni.subnet
  put32 ni.port
  put_nh_info ni.nexthop
  put32 ni.real_port
  put32 ni.vlanid
  put32 ni.bandwidth
  put_string ni.dev_ipaddr

pub get_node_info : Buf NodeInfo
get_node_info = do
  ipaddr ← get_string_from
  subnet ← get_string_from
  port ← get32
  nexthop ← get_nh_info
  real_port ← get32
  vlanid ← get32
  bandwidth ← get32
  dev_ipaddr ← get_string_from
  pure (record {
    ipaddr = ipaddr;
    dev_ipaddr = dev_ipaddr;
    subnet = subnet;
    port = port;
    real_port = real_port;
    vlanid = vlanid;
    bandwidth = bandwidth;
    nexthop = nexthop;
  })
