-- ===== src/VppCli/Setting/Lines.antt =====
-- What the commands of src/vpp_cli.c that change something say to VPP, and what they answer.
use routerd.Prelude.{
  ℕ, ◌%◌, ◌^◌, ◌≡◌, List, [], ◌∷◌, Option, some, Bool, true, false, not, if◌then◌else◌,
}
use routerd.Vui.Registry.{same_string}
use routerd.Vui.Registry.Find.{same_string_refl}
use routerd.Client.Messages.{Daemon}
use routerd.Client.Messages.Sent.{Request, route_of, new_loopback, up_down, address_of}
use routerd.Client.Prefix.{AddressPrefix, Numbers, parse_prefix_str}
use routerd.VppCli.State.{
  timed_out, Call, disconnect, out, Code, success, warning_config_failed, Outcome, Link,
}
use routerd.VppCli.Setting.{
  del_word, ipv6_word, up_word, family, index_of, set_interface_address, set_interface_state,
  create_loopback_interface, ip_adddel_route,
}

-- A line of one of the commands. The other family and the other direction are any words but those.
pub data SettingLine : Type 0 where
  address : (is_ipv6 del : Bool) (name pref : List ℕ) → SettingLine
  state : (name : List ℕ) (is_up : Bool) → SettingLine
  loopback : SettingLine
  route : (del is_ipv6 : Bool) (pref nh name : List ℕ) → SettingLine

-- "set", "interface", "address", "idx", "state", "route", "via" and "nh-ifindex" are the word `w`: no
-- command looks at them.
module _ (w : List ℕ) where
  abbrev pub word_or : Bool → List ℕ → List ℕ
  word_or b s = if b then s else w

  abbrev pub words : SettingLine → List (List ℕ)
  words (address is_ipv6 del name pref) =
      w
      ∷ w
      ∷ word_or is_ipv6 ipv6_word
      ∷ w
      ∷ (if del then del_word ∷ w ∷ name ∷ pref ∷ [] else w ∷ name ∷ pref ∷ [])
  words (state name is_up) = w ∷ w ∷ w ∷ w ∷ name ∷ word_or is_up up_word ∷ []
  words loopback = w ∷ w ∷ w ∷ []
  words (route del is_ipv6 pref nh name) =
      word_or del del_word ∷ word_or is_ipv6 ipv6_word ∷ w ∷ pref ∷ w ∷ nh ∷ w ∷ name ∷ []

  -- A word that none of the tests takes.
  abbrev pub IsOther : Type 0
  IsOther =
      (same_string w del_word ≡ false)
      × (same_string w ipv6_word ≡ false)
      × (same_string w up_word ≡ false)

  module _ (lib : Numbers) (garbage : AddressPrefix) (link : Link) where
    unfoldable pub run_setting : Daemon → ℕ → SettingLine → Option Outcome
    run_setting rm id (address is_ipv6 del name pref) =
        set_interface_address lib garbage link rm (words (address is_ipv6 del name pref))
    run_setting rm id (state name is_up) =
        set_interface_state lib garbage link rm (words (state name is_up))
    run_setting rm id loopback = create_loopback_interface lib garbage link rm id
    run_setting rm id (route del is_ipv6 pref nh name) =
        ip_adddel_route lib garbage link rm (words (route del is_ipv6 pref nh name))

    -- The request that a line means, the number of its context, and what it concludes without an answer.
    abbrev pub Asks : ℕ → SettingLine → Request → ℕ → Type 0
    Asks id (address is_ipv6 del name pref) q k =
        (p : AddressPrefix) × (parse_prefix_str lib pref (family is_ipv6) garbage ≡ some p)
        × (q ≡ address_of (index_of lib name) (not del) is_ipv6 p.u p.plen)
        × (k ≡ 3)
    Asks id (state name is_up) q k = (q ≡ up_down (index_of lib name) is_up) × (k ≡ 2)
    Asks id loopback q k = (q ≡ new_loopback) × (k ≡ id % 2 ^ 32)
    Asks id (route del is_ipv6 pref nh name) q k =
        (p : AddressPrefix) × (r : AddressPrefix) × (parse_prefix_str lib pref (family is_ipv6)
            garbage
          ≡ some p)
        × (parse_prefix_str lib nh (family is_ipv6) garbage ≡ some r)
        × (q ≡ route_of (not del) p r (index_of lib name))
        × (k ≡ 10)

    abbrev pub at_timeout : SettingLine → Code × List Call
    at_timeout (state name is_up) = (success, disconnect ∷ [])
    at_timeout _ = (warning_config_failed, out timed_out ∷ disconnect ∷ [])

    abbrev pub without_rx : SettingLine → Bool
    without_rx loopback = false
    without_rx _ = true

    pub same_word :
        (b : Bool) (s : List ℕ) → same_string w s ≡ false → same_string (word_or b s) s ≡ b
    same_word true s h = same_string_refl s
    same_word false s h = h
