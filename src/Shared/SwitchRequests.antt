-- ===== src/Shared/SwitchRequests.antt =====
-- shared/switch_requests.h and shared/switch_requests.cc: the requests to the daemon of the switches.
pub mod Delivery
use onldaemons.Prelude.{ℕ, zero, suc, List, [], ◌∷◌, ◌++◌, length}
use onldaemons.Shared.ByteBuffer.{Buf, pure, ◌>>=◌, ◌>>◌, put32, get32}
use onldaemons.Shared.NccpString.{NccpString, put_string, get_string_from}
use onldaemons.Shared.SwitchTypes.{
  SwitchPort, SwitchInfo, put_switch_port, get_switch_port, put_switch_info, get_switch_info,
}
use onldaemons.Shared.Message.{Request, parse_request, write_request}

-- Also start_session, end_session and add_vlan, which add no field.
pub record SwitchRequest : Type 0 where
  pub request : Request
  pub session_id : NccpString

pub parse_switch_request : SwitchRequest → Buf SwitchRequest
parse_switch_request old = do
  request ← parse_request old.request
  session_id ← get_string_from
  pure (record { request = request; session_id = session_id })

pub write_switch_request : SwitchRequest → Buf (Unit {0})
write_switch_request x = do write_request x.request; put_string x.session_id

-- Also delete_from_vlan, whose fields and methods are the same.
pub record AddToVlan : Type 0 where
  pub switch_request : SwitchRequest
  pub vlanid : ℕ
  pub port : SwitchPort

pub parse_add_to_vlan : AddToVlan → Buf AddToVlan
parse_add_to_vlan old = do
  switch_request ← parse_switch_request old.switch_request
  vlanid ← get32
  port ← get_switch_port
  pure (record { switch_request = switch_request; vlanid = vlanid; port = port })

pub write_add_to_vlan : AddToVlan → Buf (Unit {0})
write_add_to_vlan x = do
  write_switch_request x.switch_request
  put32 x.vlanid
  put_switch_port x.port

pub record Initialize : Type 0 where
  pub request : Request
  pub switches : List SwitchInfo

-- The loop reads each switch and puts it behind those that the object has.
unfoldable pub parse_switches : ℕ → List SwitchInfo → Buf (List SwitchInfo)
parse_switches zero switches = pure switches
parse_switches (suc size) switches = do
  cur_switch ← get_switch_info
  parse_switches size (switches ++ (cur_switch ∷ []))

pub parse_initialize : Initialize → Buf Initialize
parse_initialize old = do
  request ← parse_request old.request
  size ← get32
  switches ← parse_switches size old.switches
  pure (record { request = request; switches = switches })

unfoldable pub write_switches : List SwitchInfo → Buf (Unit {0})
write_switches [] = pure tt
write_switches (s ∷ ss) = do put_switch_info s; write_switches ss

pub write_initialize : Initialize → Buf (Unit {0})
write_initialize x = do
  write_request x.request
  put32 (length x.switches)
  write_switches x.switches
