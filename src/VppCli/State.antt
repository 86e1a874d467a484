-- ===== src/VppCli/State.antt =====
-- src/vpp_cli.c: the replies of VPP, what a command does, and the parts that the commands share. A
-- reply that is read as another message, and an access out of bounds, are `none`.
pub mod Loop
use routerd.Prelude.{
  ℕ, ◌+◌, ◌*◌, ◌/◌, ◌%◌, ◌^◌, List, [], ◌∷◌, ◌++◌, Option, none, some, ◌>>=◌, Bool, true, false,
  ◌==◌, leb, htons, htonl, ℤ, is_negative, if◌then◌else◌,
}
use routerd.Cplane.Api.{Details, NodeReply, ProcReply}
use routerd.Client.MessageId.{find_msg_id}
use routerd.Client.Names.{control_ping_reply_name}
use routerd.Client.Messages.{Header, Body, Daemon}
use routerd.Client.Replies.{connect_to_vpp, NodeType, ProcState}

-- The fields that are read of `vl_api_sw_interface_details_t`, words in network order.
pub record InterfaceDetails : Type 0 where
  pub sw_if_index : ℕ
  pub interface_name : List ℕ
  pub admin_up_down : ℕ
  pub link_up_down : ℕ
  pub l2_address : List ℕ
  pub link_mtu : ℕ
  pub mtu : List ℕ
  pub link_speed : ℕ
  pub link_duplex : ℕ

-- `vl_api_ip_address_details_t`; of its other bytes nothing is read.
pub record AddressDetails : Type 0 where
  pub sw_if_index : ℕ
  pub ip : List ℕ

-- `vl_api_fib_path_t`, words in network order, and `vl_api_ip_route_details_t`.
pub record FibPath : Type 0 where
  pub sw_if_index : ℕ
  pub table_id : ℕ
  pub type : ℕ
  pub proto : ℕ
  pub nh_ip4 : List ℕ

pub record RouteDetails : Type 0 where
  pub prefix_len : ℕ
  pub un : List ℕ
  pub n_paths : ℕ
  pub paths : List FibPath

-- What a message from VPP holds behind its number.
pub data Reply : Type 0 where
  pong : Reply
  retval_reply : ℕ → Reply
  interface_details : InterfaceDetails → Reply
  address_details : AddressDetails → Reply
  route_details : RouteDetails → Reply
  tap_details : Details → Reply
  node_reply : NodeReply → Reply
  proc_reply : ProcReply → Reply

-- A message; its number is in network order.
pub record Msg : Type 0 where
  pub vl_msg_id : ℕ
  pub reply : Reply

-- What is printed of an interface.
pub record InterfaceLine : Type 0 where
  pub interface_name : List ℕ
  pub index : ℕ
  pub is_admin_up : Bool
  pub is_link_up : Bool
  pub address : List ℕ
  pub link_mtu : ℕ
  pub mtu : List ℕ
  pub speed : List ℕ
  pub is_full : Bool

-- What is printed of a path, and of a route.
pub record PathLine : Type 0 where
  pub sw_if_index : ℕ
  pub table_id : ℕ
  pub type : ℕ
  pub proto : ℕ
  pub nh : List ℕ

pub data Line : Type 0 where
  could_not_connect timed_out no_such_proc no_such_node pong_recv end_entry blank title : Line
  setting_failed : ℕ → Line
  route_line : (addr : List ℕ) (prefix_len : ℕ) → List PathLine → Line
  interface_line : InterfaceLine → Line
  tap_line : (v k : ℕ) → Line
  flags_line : ℕ → ProcState → Line
  node_lines : (index node_type : ℕ) → NodeType → (state flags : ℕ) → Line

-- What a command does to the rest of the world, in order. `add_interface` is
-- routerd_context_add_interface.
pub data Call : Type 0 where
  connect : (no_rx_pthread succeeded : Bool) → Call
  region_exit disconnect : Call
  out : Line → Call
  add_interface : (kern_index : ℕ) (kern_name : List ℕ) (vpp_index : ℕ) → Call
  sleep : ℕ → Call

pub data Code : Type 0 where
  success warning_config_failed : Code

pub record Outcome : Type 0 where
  pub code : Code
  pub daemon : Daemon
  pub calls : List Call

abbrev pub outcome : Code → Daemon → List Call → Outcome
outcome code daemon calls = record { code = code; daemon = daemon; calls = calls }

-- What the library does in a connection: its answer, what it sets, and the messages that arrive until a
-- wait ends without one. `later` arrive after such a wait.
pub record Link : Type 0 where
  pub connected : ℤ
  pub client_index : ℕ
  pub input_queue : List (Header × Body)
  pub arrive : List Msg
  pub later : List Msg

-- What all commands begin with: without a connection there is a message and a warning.
unfoldable pub connecting : Link → Bool → Daemon → (Daemon → Option Outcome) → Option Outcome
connecting link no_rx_pthread rm body =
    let r = connect_to_vpp rm link.connected link.client_index link.input_queue in
    if is_negative r.0
    then some (
        outcome warning_config_failed rm
          (connect no_rx_pthread false ∷ region_exit ∷ out could_not_connect ∷ []))
    else (body r.1 >>= λ o. some (outcome o.code o.daemon (connect no_rx_pthread true ∷ o.calls)))

-- An `int32_t` below zero
abbrev pub is_negative32 : ℕ → Bool
is_negative32 w = leb (2 ^ 31) w

-- The loops that end at the answer to the ping: the state after, whether that answer came, and the
-- messages left. A wait that ends without a message ends the loop too.
unfoldable pub until_pong {ℓ} :
    {S : Type ℓ}
    → List (List ℕ × ℕ)
    → (S → Reply → Option S)
    → S
    → List Msg
    → Option (S × Bool × List Msg)
until_pong table body s [] = some (s, false, [])
until_pong table body s (m ∷ msgs) = find_msg_id table control_ping_reply_name >>= λ pong_id.
    let next = body s m.reply >>= λ s'. until_pong table body s' msgs in
    if htons m.vl_msg_id == pong_id % 2 ^ 16 then some (s, true, msgs) else next
