-- ===== src/Tests/Client.antt =====
-- The daemon's side of VPP's API at concrete inputs.
use routerd.Prelude.{
  ℕ, ◌+◌, ◌%◌, ◌^◌, ◌<◌, ◌≤◌, ◌≡◌, ◌≢◌, ◌⊎◌, refl, inl, List, [], ◌∷◌, ◌++◌, none, some, true,
  false, ◌==◌, length, All, Returns, if◌then◌else◌, arith,
}
use routerd.Client.MessageId.{find_msg_id, IsKeyOf, find_msg_id_lem}
use routerd.Client.Names.{control_ping_name, sw_interface_set_flags_name}
use routerd.Client.Prefix.{
  af_inet, AddressPrefix, Numbers, ReadPrefix, parse_prefix_str, parse_prefix_str_lem,
}
use routerd.Client.Messages.{Daemon}
use routerd.Client.Messages.Sent.{up_down, name_of, perform, SentOne, perform-SentOne}
use routerd.Cplane.Connect.{starts_with}

abbrev pub crc : List ℕ
crc = b'_' ∷ b'0' ∷ b'1' ∷ b'2' ∷ b'3' ∷ b'4' ∷ b'5' ∷ b'6' ∷ b'7' ∷ []

abbrev message_table : List (List ℕ × ℕ)
message_table = (control_ping_name ++ crc, 40) ∷ (sw_interface_set_flags_name ++ crc, 41) ∷ []

find_msg_id_lem_example :
    ((before : List (List ℕ × ℕ)) × (after : List (List ℕ × ℕ)) × (key : List ℕ) × (value : ℕ)
      × (message_table ≡ before ++ (key, value) ∷ after)
      × IsKeyOf control_ping_name key
      × All (λ p. ¬ IsKeyOf control_ping_name p.0) before
      × (find_msg_id message_table control_ping_name ≡ some (value % 2 ^ 32)))
    ⊎ All (λ p. ¬ IsKeyOf control_ping_name p.0) message_table
      × (find_msg_id message_table control_ping_name ≡ none)
find_msg_id_lem_example = find_msg_id_lem message_table control_ping_name

-- "::" is an address of the first family here, and the
-- value of a number is its length.
abbrev pub numbers : Numbers
numbers = record {
  inet_pton = λ afi s. if length s == 2 then some (0 ∷ 0 ∷ 0 ∷ 0 ∷ []) else none;
  strtol = λ s. length s;
}

abbrev pub zero_prefix : AddressPrefix
zero_prefix = record { afi = 0; plen = 0; u = [] }

abbrev pub address_text : List ℕ
address_text = b':' ∷ b':' ∷ []

no_slash : All (λ c. c ≢ b'/') address_text
no_slash = (ground arith, (ground arith, tt))

parse_prefix_str_lem_example :
    Returns
      (ReadPrefix numbers af_inet address_text 32 zero_prefix.u)
      (parse_prefix_str numbers address_text af_inet zero_prefix)
    × (length address_text + 1 < 127
        → Returns
            (ReadPrefix numbers af_inet address_text 1 zero_prefix.u)
            (parse_prefix_str numbers (address_text ++ b'/' ∷ b'8' ∷ []) af_inet zero_prefix))
    × (127 ≤ length address_text + 1
        → parse_prefix_str numbers (address_text ++ b'/' ∷ b'8' ∷ []) af_inet zero_prefix ≡ none)
parse_prefix_str_lem_example =
    parse_prefix_str_lem numbers af_inet address_text (b'8' ∷ []) zero_prefix (inl refl) no_slash

abbrev daemon : Daemon
daemon = record { my_client_index = 3; table = message_table; queue = []; path_room = false }

set_flags_number : find_msg_id message_table (name_of (up_down 2 true)) ≡ some 41
unfolding find_msg_id starts_with name_of
set_flags_number = refl

perform-SentOne_example :
    Returns (SentOne daemon 7 41 (up_down 2 true)) (perform daemon 7 (up_down 2 true))
perform-SentOne_example =
    perform-SentOne daemon 7 41 (up_down 2 true) set_flags_number (omega arith) (omega arith)
      (omega arith)
