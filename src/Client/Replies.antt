-- ===== src/Client/Replies.antt =====
-- src/vpp.c: the answers that are waited for, the connection, and two tables of words.
pub mod Agree
use routerd.Prelude.{
  ℕ, ◌+◌, ◌*◌, ◌/◌, ◌%◌, ◌^◌, List, [], ◌∷◌, Option, none, some, Bool, true, false, not, ◌==◌,
  has_bit, ltb, htonl, invalid, ℤ, pos, negsuc, is_negative, if◌then◌else◌,
}
use routerd.Client.Messages.{Header, Body, Daemon}

-- `(int32_t)-1`
abbrev pub no_answer : ℕ
no_answer = 0xffff_ffff

-- `vpp_waitmsg_retval`: the field `retval`, in network order, of the message taken from the queue, or
-- `none` when the wait ends without one. The value is the word of an `int32_t`.
unfoldable pub vpp_waitmsg_retval : Option ℕ → ℕ
vpp_waitmsg_retval none = no_answer
vpp_waitmsg_retval (some retval) = htonl retval

-- `enable_disable_tap_inject_retval`
unfoldable pub enable_disable_tap_inject_retval : Option ℕ → ℕ
enable_disable_tap_inject_retval none = no_answer
enable_disable_tap_inject_retval (some retval) = htonl retval

-- `connect_to_vpp`: `connected` is what the library's connecting answers, `client_index` and
-- `input_queue` what it sets.
unfoldable pub connect_to_vpp : Daemon → ℤ → ℕ → List (Header × Body) → ℤ × Daemon
connect_to_vpp rm connected client_index input_queue =
    if is_negative connected
    then (negsuc 0, rm)
    else (pos 0, record rm { my_client_index = client_index; queue = input_queue })

pub data NodeType : Type 0 where
  internal input pre_input process : NodeType

-- `vpp_node_type_str`: a null entry fails the `assert`, a number past the table is out of bounds.
unfoldable pub vpp_node_type_str : ℕ → Option NodeType
vpp_node_type_str num =
    if num == 0
    then some internal
    else if num == 1
    then some input
    else if num == 2
    then some pre_input
    else if num == 3
    then some process
    else none

pub data ProcState : Type 0 where
  done active time_wait event_wait any_wait : ProcState

-- `vpp_proc_flags_to_state`; `running` is the number of the bit VLIB_PROCESS_IS_RUNNING.
unfoldable pub vpp_proc_flags_to_state : ℕ → ℕ → ProcState
vpp_proc_flags_to_state running flags =
    let waiting = flags % 4 in
    if waiting == 1
    then time_wait
    else if waiting == 2
    then event_wait
    else if waiting == 3
    then any_wait
    else if has_bit flags running
    then active
    else done
