-- ===== src/Shared/SwitchTypes.antt =====
-- shared/switch_types.h and shared/switch_types.cc: ports and switches, as the switch daemon and the
-- resource daemon exchange them.
use onldaemons.Prelude.{
  ℕ, ◌^◌, ◌<◌, ◌≡◌, Bool, true, false, ◌&&◌, List, ◌++◌, ltb, ◌==◌ as nat_eq, if◌then◌else◌,
}
use onldaemons.Shared.ByteBuffer.{Buf, pure, ◌>>=◌, ◌>>◌, put32, put_bool, get32, get_bool}
use onldaemons.Shared.ByteBuffer.Emit.{
  emit, emit-append, bytes32, bytes_bool, put32-emit, put_bool-emit,
}
use onldaemons.Shared.ByteBuffer.Holds.{
  Decodes, Decodes-bind, Decodes-map, get32-Decodes, get_bool-Decodes,
}
use onldaemons.Shared.NccpString.{
  NccpString, IsNccpString, of_c_string, empty, get_string, put_string, get_string_from,
  bytes_string, put_string-emit, get_string-Decodes,
}
use onldaemons.Shared.NccpString

pub record SwitchPort : Type 0 where
  pub switchid : NccpString
  pub port : ℕ
  pub is_interswitch_port : Bool
  pub pass_tag : Bool

-- switch_port(switch_id, portnum, interswitch_port, pt)
pub new_switch_port : List ℕ → ℕ → Bool → Bool → SwitchPort
new_switch_port switch_id portnum interswitch_port pt = record {
  switchid = of_c_string switch_id;
  port = portnum;
  is_interswitch_port = interswitch_port;
  pass_tag = pt;
}

abbrev same_bool : Bool → Bool → Bool
same_bool true b = b
same_bool false true = false
same_bool false false = true

infix 50 ◌==◌
-- `pass_tag` is not compared.
unfoldable pub ◌==◌ : SwitchPort → SwitchPort → Bool
a == b =
    NccpString.◌==◌ a.switchid b.switchid
    && nat_eq a.port b.port
    && same_bool a.is_interswitch_port b.is_interswitch_port

unfoldable pub less : SwitchPort → SwitchPort → Bool
less a b =
    if NccpString.less a.switchid b.switchid
    then true
    else if NccpString.greater a.switchid b.switchid
    then false
    else if ltb a.port b.port
    then true
    else false

pub is_valid : SwitchPort → Bool
is_valid sp = if nat_eq sp.port 0 then false else true

pub put_switch_port : SwitchPort → Buf (Unit {0})
put_switch_port sp = do
  put_string sp.switchid
  put32 sp.port
  put_bool sp.is_interswitch_port
  put_bool sp.pass_tag

pub get_switch_port : Buf SwitchPort
get_switch_port = do
  switchid ← get_string_from
  port ← get32
  is_interswitch_port ← get_bool
  pass_tag ← get_bool
  pure (record {
    switchid = switchid;
    port = port;
    is_interswitch_port = is_interswitch_port;
    pass_tag = pass_tag;
  })

pub record SwitchInfo : Type 0 where
  pub switchid : NccpString
  pub ports : ℕ
  pub management_port : ℕ

pub new_switch_info : List ℕ → ℕ → SwitchInfo
new_switch_info switch_id num_ports = record {
  switchid = of_c_string switch_id;
  ports = num_ports;
  management_port = 0;
}

pub put_switch_info : SwitchInfo → Buf (Unit {0})
put_switch_info si = do put_string si.switchid; put32 si.ports; put32 si.management_port

pub get_switch_info : Buf SwitchInfo
get_switch_info = do
  switchid ← get_string_from
  ports ← get32
  management_port ← get32
  pure (record { switchid = switchid; ports = ports; management_port = management_port })

pub record IsSwitchPort (x : SwitchPort) : Type 0 where
  pub switchid : IsNccpString x.switchid
  pub port : x.port < 2 ^ 32

pub record IsSwitchInfo (x : SwitchInfo) : Type 0 where
  pub switchid : IsNccpString x.switchid
  pub ports : x.ports < 2 ^ 32
  pub management_port : x.management_port < 2 ^ 32

unfoldable pub bytes_switch_port : SwitchPort → List ℕ
bytes_switch_port x =
    bytes_string x.switchid
    ++ (bytes32 x.port ++ (bytes_bool x.is_interswitch_port ++ bytes_bool x.pass_tag))

unfoldable pub bytes_switch_info : SwitchInfo → List ℕ
bytes_switch_info x = bytes_string x.switchid ++ (bytes32 x.ports ++ bytes32 x.management_port)

pub put_switch_port-emit : (x : SwitchPort) → put_switch_port x ≡ emit (bytes_switch_port x)
unfolding put_switch_port bytes_switch_port
put_switch_port-emit x = simp (put_string-emit, put32-emit, put_bool-emit, emit-append)

pub get_switch_port-Decodes :
    (x : SwitchPort) → IsSwitchPort x → Decodes get_switch_port (bytes_switch_port x) x
unfolding get_switch_port bytes_switch_port
get_switch_port-Decodes x w = Decodes-bind _ (get_string-Decodes _ w.switchid) (
    Decodes-bind _ (get32-Decodes _ w.port)
      (Decodes-bind _ (get_bool-Decodes _) (Decodes-map _ (get_bool-Decodes _))))

pub put_switch_info-emit : (x : SwitchInfo) → put_switch_info x ≡ emit (bytes_switch_info x)
unfolding put_switch_info bytes_switch_info
put_switch_info-emit x = simp (put_string-emit, put32-emit, emit-append)

pub get_switch_info-Decodes :
    (x : SwitchInfo) → IsSwitchInfo x → Decodes get_switch_info (bytes_switch_info x) x
unfolding get_switch_info bytes_switch_info
get_switch_info-Decodes x w =
    Decodes-bind _ (get_string-Decodes _ w.switchid)
      (Decodes-bind _ (get32-Decodes _ w.ports) (Decodes-map _ (get32-Decodes _ w.management_port)))
