-- ===== src/Client/Names.antt =====
-- The names of VPP's messages, src/vpp.h.
use routerd.Prelude.{ℕ, List, [], ◌∷◌}

abbrev pub control_ping_name : List ℕ
control_ping_name =
    b'c' ∷ b'o' ∷ b'n' ∷ b't' ∷ b'r' ∷ b'o' ∷ b'l' ∷ b'_' ∷ b'p' ∷ b'i' ∷ b'n' ∷ b'g' ∷ []

abbrev pub control_ping_reply_name : List ℕ
control_ping_reply_name =
    b'c' ∷ b'o' ∷ b'n' ∷ b't' ∷ b'r' ∷ b'o' ∷ b'l' ∷ b'_' ∷ b'p' ∷ b'i' ∷ b'n' ∷ b'g' ∷ b'_' ∷ b'r'
    ∷ b'e' ∷ b'p' ∷ b'l' ∷ b'y' ∷ []

abbrev pub sw_interface_dump_name : List ℕ
sw_interface_dump_name =
    b's' ∷ b'w' ∷ b'_' ∷ b'i' ∷ b'n' ∷ b't' ∷ b'e' ∷ b'r' ∷ b'f' ∷ b'a' ∷ b'c' ∷ b'e' ∷ b'_' ∷ b'd'
    ∷ b'u' ∷ b'm' ∷ b'p' ∷ []

abbrev pub sw_interface_set_flags_name : List ℕ
sw_interface_set_flags_name =
    b's' ∷ b'w' ∷ b'_' ∷ b'i' ∷ b'n' ∷ b't' ∷ b'e' ∷ b'r' ∷ b'f' ∷ b'a' ∷ b'c' ∷ b'e' ∷ b'_' ∷ b's'
    ∷ b'e' ∷ b't' ∷ b'_' ∷ b'f' ∷ b'l' ∷ b'a' ∷ b'g' ∷ b's' ∷ []

abbrev pub sw_interface_add_del_address_name : List ℕ
sw_interface_add_del_address_name =
    b's' ∷ b'w' ∷ b'_' ∷ b'i' ∷ b'n' ∷ b't' ∷ b'e' ∷ b'r' ∷ b'f' ∷ b'a' ∷ b'c' ∷ b'e' ∷ b'_' ∷ b'a'
    ∷ b'd' ∷ b'd' ∷ b'_' ∷ b'd' ∷ b'e' ∷ b'l' ∷ b'_' ∷ b'a' ∷ b'd' ∷ b'd' ∷ b'r' ∷ b'e' ∷ b's'
    ∷ b's' ∷ []

abbrev pub ip_address_dump_name : List ℕ
ip_address_dump_name =
    b'i' ∷ b'p' ∷ b'_' ∷ b'a' ∷ b'd' ∷ b'd' ∷ b'r' ∷ b'e' ∷ b's' ∷ b's' ∷ b'_' ∷ b'd' ∷ b'u' ∷ b'm'
    ∷ b'p' ∷ []

abbrev pub create_loopback_name : List ℕ
create_loopback_name =
    b'c' ∷ b'r' ∷ b'e' ∷ b'a' ∷ b't' ∷ b'e' ∷ b'_' ∷ b'l' ∷ b'o' ∷ b'o' ∷ b'p' ∷ b'b' ∷ b'a' ∷ b'c'
    ∷ b'k' ∷ []

abbrev pub ip_route_add_del_name : List ℕ
ip_route_add_del_name =
    b'i' ∷ b'p' ∷ b'_' ∷ b'r' ∷ b'o' ∷ b'u' ∷ b't' ∷ b'e' ∷ b'_' ∷ b'a' ∷ b'd' ∷ b'd' ∷ b'_' ∷ b'd'
    ∷ b'e' ∷ b'l' ∷ []

abbrev pub tap_inject_enable_disable_name : List ℕ
tap_inject_enable_disable_name =
    b't' ∷ b'a' ∷ b'p' ∷ b'_' ∷ b'i' ∷ b'n' ∷ b'j' ∷ b'e' ∷ b'c' ∷ b't' ∷ b'_' ∷ b'e' ∷ b'n' ∷ b'a'
    ∷ b'b' ∷ b'l' ∷ b'e' ∷ b'_' ∷ b'd' ∷ b'i' ∷ b's' ∷ b'a' ∷ b'b' ∷ b'l' ∷ b'e' ∷ []

abbrev pub tap_inject_dump_name : List ℕ
tap_inject_dump_name =
    b't' ∷ b'a' ∷ b'p' ∷ b'_' ∷ b'i' ∷ b'n' ∷ b'j' ∷ b'e' ∷ b'c' ∷ b't' ∷ b'_' ∷ b'd' ∷ b'u' ∷ b'm'
    ∷ b'p' ∷ []

abbrev pub get_node_info_name : List ℕ
get_node_info_name =
    b'g' ∷ b'e' ∷ b't' ∷ b'_' ∷ b'n' ∷ b'o' ∷ b'd' ∷ b'e' ∷ b'_' ∷ b'i' ∷ b'n' ∷ b'f' ∷ b'o' ∷ []

abbrev pub get_proc_info_name : List ℕ
get_proc_info_name =
    b'g' ∷ b'e' ∷ b't' ∷ b'_' ∷ b'p' ∷ b'r' ∷ b'o' ∷ b'c' ∷ b'_' ∷ b'i' ∷ b'n' ∷ b'f' ∷ b'o' ∷ []

abbrev pub ip_route_dump_name : List ℕ
ip_route_dump_name =
    b'i' ∷ b'p' ∷ b'_' ∷ b'r' ∷ b'o' ∷ b'u' ∷ b't' ∷ b'e' ∷ b'_' ∷ b'd' ∷ b'u' ∷ b'm' ∷ b'p' ∷ []

abbrev pub sr_localsid_add_del_name : List ℕ
sr_localsid_add_del_name =
    b's' ∷ b'r' ∷ b'_' ∷ b'l' ∷ b'o' ∷ b'c' ∷ b'a' ∷ b'l' ∷ b's' ∷ b'i' ∷ b'd' ∷ b'_' ∷ b'a' ∷ b'd'
    ∷ b'd' ∷ b'_' ∷ b'd' ∷ b'e' ∷ b'l' ∷ []
