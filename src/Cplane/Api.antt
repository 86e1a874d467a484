-- ===== src/Cplane/Api.antt =====
-- The API messages of cplane_netdev.c that change no state: the taps there are, and what VPP knows of
-- a node or of a process.
pub mod Dump
use routerd.Prelude.{
  ℕ, zero, suc, ◌+◌, List, [], ◌∷◌, Option, none, some, Bool, true, false, ◌==◌, map, htonl,
  if◌then◌else◌,
}
use routerd.Vppinfra.{Vppinfra}
use routerd.Cplane.State.{Main}

-- `vl_api_tap_inject_details_t`, its indices in network order.
pub record Details : Type 0 where
  pub sw_if_index : ℕ
  pub kernel_if_index : ℕ
  pub context : ℕ

-- `send_tap_inject_details`: the message sent.
abbrev pub tap_inject_details : ℕ → ℕ → ℕ → Details
tap_inject_details context vpp_index kern_index = record {
  sw_if_index = htonl vpp_index;
  kernel_if_index = htonl kern_index;
  context = context;
}

-- The loop of the handler over the pairs of the table.
unfoldable pub dump_pairs : ℕ → List (ℕ × ℕ) → List Details
dump_pairs context [] = []
dump_pairs context ((kern_index, vpp_index) ∷ pairs) =
    tap_inject_details context vpp_index kern_index ∷ dump_pairs context pairs

-- `vl_api_tap_inject_dump_t_handler`
unfoldable pub tap_inject_dump_handler : (V : Vppinfra) → Main V → ℕ → List Details
tap_inject_dump_handler V tm context =
    dump_pairs context (V.hash_pairs tm.tap_if_index_to_sw_if_index)

-- What VPP tells of a node; `process` is the flags of its process, `none` where it has none.
pub record NodeInfo : Type 0 where
  pub node_type : ℕ
  pub index : ℕ
  pub state : ℕ
  pub flags : ℕ
  pub process : Option ℕ

-- `(int32_t)-1`
abbrev pub failure : ℕ
failure = 0xffff_ffff

-- The replies; fields that are not set are zero.
pub record NodeReply : Type 0 where
  pub retval : ℕ
  pub node_type : ℕ
  pub node_index : ℕ
  pub node_state : ℕ
  pub node_flags : ℕ

pub record ProcReply : Type 0 where
  pub retval : ℕ
  pub proc_flags : ℕ

-- `vl_api_get_node_info_t_handler`
pub get_node_info_handler : (List ℕ → Option NodeInfo) → List ℕ → NodeReply
get_node_info_handler node_by_name node_name = elim (node_by_name node_name) [
  | none ↦ record {
    retval = failure;
    node_type = 0;
    node_index = 0;
    node_state = 0;
    node_flags = 0;
  }
  | some node ↦ record {
    retval = 0;
    node_type = node.node_type;
    node_index = node.index;
    node_state = node.state;
    node_flags = node.flags;
  }
]

-- `vl_api_get_proc_info_t_handler`
pub get_proc_info_handler : (List ℕ → Option NodeInfo) → List ℕ → ProcReply
get_proc_info_handler node_by_name node_name = elim (node_by_name node_name) [
  | none ↦ record { retval = failure; proc_flags = 0 }
  | some node ↦ elim node.process [
    | none ↦ record { retval = failure; proc_flags = 0 }
    | some flags ↦ record { retval = 0; proc_flags = flags }
  ]
]
