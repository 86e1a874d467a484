-- ===== src/Tests/Commands.antt =====
-- The commands of src/vpp_cli.c at concrete inputs.
use routerd.Prelude.{
  All, ℕ, ◌%◌, ◌^◌, ◌≡◌, ◌≢◌, ◌↔◌, refl, List, [], ◌∷◌, ◌++◌, Option, All, some, true, false, htons,
  htonl, pos, Returns, ◌==◌, if◌then◌else◌, invalid, arith,
}
use routerd.Cplane.Api.{tap_inject_dump_handler}
use routerd.Cplane.Connect.{starts_with}
use routerd.Cplane.TapTable.{fd_of, if_of}
use routerd.Client.MessageId.{find_msg_id}
use routerd.Client.Names.{
  control_ping_name, control_ping_reply_name, sw_interface_set_flags_name, sw_interface_dump_name,
  ip_address_dump_name, tap_inject_dump_name, get_proc_info_name,
}
use routerd.Client.Prefix.{find_slash, parse_prefix_str, af_inet}
use routerd.Client.Messages.{Daemon}
use routerd.VppCli.State.{
  InterfaceDetails, AddressDetails, interface_details, address_details, tap_details, proc_reply,
  retval_reply, Msg, blank, Call, connect, disconnect, out, success, Outcome, Link,
}
use routerd.VppCli.State.Loop.{pong_msg, msgs_of, joined}
use routerd.VppCli.Setting.{family}
use routerd.VppCli.Show.{enable_cplane_netdev_sync}
use routerd.VppCli.Show.Sync.{IsAdd, Adds, sync_iff}
use routerd.VppCli.Interfaces.{show_vpp_interface}
use routerd.VppCli.Interfaces.Views.{last_of, lines_from}
use routerd.VppCli.Interfaces.Shown.{show_vpp_interface_lem}
use routerd.VppCli.Wait.{wait_startup_config_process_done}
use routerd.VppCli.Wait.Attempts.{Rounds, wait_done_lem}
use routerd.Tests.Fixtures
use routerd.Tests.Fixtures.{list_infra}
use routerd.Tests.Tables.{joined-IsLinked, joined_words}
use routerd.Tests.Client.{crc, numbers, zero_prefix, address_text}

abbrev table : List (List ℕ × ℕ)
table =
    (control_ping_name ++ crc, 40)
    ∷ (control_ping_reply_name ++ crc, 41)
    ∷ (sw_interface_set_flags_name ++ crc, 42)
    ∷ (sw_interface_dump_name ++ crc, 43)
    ∷ (ip_address_dump_name ++ crc, 44)
    ∷ (tap_inject_dump_name ++ crc, 45)
    ∷ (get_proc_info_name ++ crc, 46)
    ∷ []

knows_ping : find_msg_id table control_ping_name ≡ some 40
unfolding find_msg_id starts_with
knows_ping = refl

knows_pong : find_msg_id table control_ping_reply_name ≡ some 41
unfolding find_msg_id starts_with
knows_pong = refl

knows_interfaces : find_msg_id table sw_interface_dump_name ≡ some 43
unfolding find_msg_id starts_with
knows_interfaces = refl

knows_addresses : find_msg_id table ip_address_dump_name ≡ some 44
unfolding find_msg_id starts_with
knows_addresses = refl

knows_taps : find_msg_id table tap_inject_dump_name ≡ some 45
unfolding find_msg_id starts_with
knows_taps = refl

knows_proc : find_msg_id table get_proc_info_name ≡ some 46
unfolding find_msg_id starts_with
knows_proc = refl

abbrev rm : Daemon
rm = record { my_client_index = 0; table = table; queue = []; path_room = false }

abbrev link : List Msg → List Msg → Link
link arrive later = record {
  connected = pos 0;
  client_index = 9;
  input_queue = [];
  arrive = arrive;
  later = later;
}

-- A word that no command looks at.
abbrev other : List ℕ
other = b'x' ∷ []

-- The value of the number "three" is its length.
abbrev three : List ℕ
three = b't' ∷ b'h' ∷ b'r' ∷ b'e' ∷ b'e' ∷ []

abbrev refused : List Msg
refused = record { vl_msg_id = 0; reply = retval_reply 0xffff_ffff } ∷ []

address_parsed :
    parse_prefix_str numbers address_text (family false) zero_prefix
    ≡ some (record { afi = af_inet; plen = 32; u = 0 ∷ 0 ∷ 0 ∷ 0 ∷ [] })
unfolding parse_prefix_str find_slash
address_parsed = refl

-- "::" and 32 bits.

abbrev proc : ℕ → Msg
proc flags = record {
  vl_msg_id = 0;
  reply = proc_reply (record { retval = 0; proc_flags = flags });
}

-- VPP is done in the second round.
abbrev links : ℕ → Link
links k = link (proc (if k == 0 then 1 else 0) ∷ []) []

wait_done_lem_example :
    Returns
      (λ (o : Outcome).
        (o.code ≡ success)
        × Rounds links
            (numbers.strtol (other ++ other) % 2 ^ 32)
            (numbers.strtol three)
            0
            table
            (o.daemon, o.calls))
      (wait_startup_config_process_done numbers links
        (λ i. i)
        rm
        (other ∷ other ∷ three ∷ other ∷ (other ++ other) ∷ []))
wait_done_lem_example =
    wait_done_lem numbers links (λ i. i) rm (other ∷ other ∷ three ∷ other ∷ (other ++ other) ∷ [])
      three (other ++ other) 46 refl refl knows_proc
      (λ k. (record { retval = 0; proc_flags = if k == 0 then 1 else 0 }, refl))

abbrev tap_link : Link
tap_link =
    link
      (msgs_of tap_details 50 (tap_inject_dump_handler list_infra Fixtures.joined 3)
        ++ pong_msg 41 ∷ [])
      []

abbrev tap_name : ℕ → Option (List ℕ)
tap_name i = some (b't' ∷ [])

sync_iff_example :
    Returns
      (λ o.
        (o.code ≡ success)
        × ((cs : List Call) × (o.calls ≡ connect true true ∷ cs ++ disconnect ∷ [])
            × All (IsAdd tap_name) cs
            × ((kern sw : ℕ)
                → Adds tap_name kern sw (cs ++ disconnect ∷ []) ↔ (
                    (fd_of list_infra Fixtures.joined sw ≢ invalid)
                    × (if_of list_infra Fixtures.joined sw ≡ kern)))))
      (enable_cplane_netdev_sync tap_name tap_link (λ i. i) rm)
sync_iff_example =
    sync_iff tap_name list_infra Fixtures.joined 3 tap_link (λ i. i) rm 50 41 [] joined-IsLinked
      joined_words (λ sw h. (b't' ∷ [], refl))
      (record {
        dump_id = (45, knows_taps);
        ping_id = (40, knows_ping);
        reply_id = knows_pong;
        reply_word = omega arith;
        number_word = omega arith;
        differ = λ h. omega (arith, h);
      })
      refl refl

-- Interface 3, told twice.
abbrev details : ℕ → InterfaceDetails
details up = record {
  sw_if_index = htonl 3;
  interface_name = b'e' ∷ [];
  admin_up_down = up;
  link_up_down = 1;
  l2_address = 2 ∷ 0 ∷ 0 ∷ 0 ∷ 0 ∷ 1 ∷ [];
  link_mtu = htons 1500;
  mtu = 0 ∷ 0 ∷ 0 ∷ 0 ∷ [];
  link_speed = 0;
  link_duplex = 1;
}

abbrev ds : List InterfaceDetails
ds = details 0 ∷ details 1 ∷ []

abbrev addrs : List AddressDetails
addrs = record { sw_if_index = htonl 3; ip = 10 ∷ 0 ∷ 0 ∷ 1 ∷ [] } ∷ []

abbrev told : Link
told =
    link (msgs_of interface_details 50 ds ++ pong_msg 41 ∷ [])
      (msgs_of address_details 51 addrs ++ pong_msg 41 ∷ [])

show_vpp_interface_lem_example :
    Returns
      (λ o.
        (o.code ≡ success)
        × (o.calls ≡ connect true true ∷ disconnect ∷ out blank ∷ lines_from 256 0 (last_of ds)))
      (show_vpp_interface told (λ i. i) rm)
show_vpp_interface_lem_example =
    show_vpp_interface_lem told (λ i. i) rm 50 51 41 ds addrs [] []
      (record {
        dump_id = (43, knows_interfaces);
        address_id = (44, knows_addresses);
        ping_id = (40, knows_ping);
        reply_id = knows_pong;
        reply_word = omega arith;
        number_word = (omega arith, omega arith);
        differ = ((λ h. omega (arith, h)), λ h. omega (arith, h));
      })
      refl refl refl ((omega arith), ((omega arith), tt)) ((omega arith), tt) (omega arith)
