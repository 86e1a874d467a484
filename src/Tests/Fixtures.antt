-- ===== src/Tests/Fixtures.antt =====
-- Concrete containers, interfaces, answers of Linux and states of the plugin.
use routerd.Prelude.{
  ◌+◌, ◌≢◌, ◌↔◌, ◌∙◌, sym, ap, ℕ, suc, ◌-◌, ◌≡◌, refl, List, [], ◌∷◌, ◌++◌, Option, none, some,
  true, false, Bool-cases, inl, inr, ◌==◌, ==_iff, if◌then◌else◌, length, replicate, arith, invalid,
}
use routerd.Vppinfra.{Vppinfra, InPairs}
use routerd.Cplane.State.{Main}
use routerd.Cplane.Env.{HwInterface, Buffer, Vpp, Linux}
use routerd.Cplane.Connect.{Counters, State}
use routerd.Cplane.Handlers.{cplane_netdev_init}

-- A hash table as the list of its pairs.
abbrev find : List (ℕ × ℕ) → ℕ → Option ℕ
find [] j = none
find ((k, v) ∷ h) j = if k == j then some v else find h j

abbrev drop_key : List (ℕ × ℕ) → ℕ → List (ℕ × ℕ)
drop_key [] k = []
drop_key ((k', v) ∷ h) k = if k' == k then drop_key h k else (k', v) ∷ drop_key h k

pub find-drop_key :
    (h : List (ℕ × ℕ)) (k j : ℕ) → find (drop_key h k) j ≡ (if k == j then none else find h j)
find-drop_key [] k j = ground arith
find-drop_key ((k', v) ∷ h) k j = elim (Bool-cases (k' == k)) [
  | inl t ↦ rw t (ground (arith, find-drop_key h k j, (==_iff k' k).0 t))
  | inr f ↦ rw f (ground (arith, find-drop_key h k j))
]

-- The pairs of a table, a key only as it is found.
abbrev pairs : List (ℕ × ℕ) → List (ℕ × ℕ)
pairs [] = []
pairs ((k, v) ∷ h) = (k, v) ∷ drop_key (pairs h) k

InPairs-drop_key :
    (h : List (ℕ × ℕ)) (k j v : ℕ) → InPairs j v (drop_key h k) ↔ ((k ≢ j) × InPairs j v h)
InPairs-drop_key [] k j v = ((λ h. absurd h), (λ h. h.1))
InPairs-drop_key ((k', v') ∷ h) k j v =
    let (to, from) = InPairs-drop_key h k j v in
    elim (Bool-cases (k' == k)) [
      | inl t ↦
          let e : k' ≡ k = (==_iff k' k).0 t in
          rw t (
            (λ i. ((to i).0, inr (to i).1)),
            λ (n, i). elim i [ inl x ↦ absurd (n (sym e ∙ x.0)) | inr x ↦ from (n, x) ],
          )
      | inr f ↦ rw f (
        (λ i. elim i [
          | inl x ↦ ((λ e. ground (arith, e, x.0, f)), inl x)
          | inr x ↦ ((to x).0, inr (to x).1)
        ]),
        λ (n, i). elim i [ inl x ↦ inl x | inr x ↦ inr (from (n, x)) ],
      )
    ]

pub pairs_iff : (h : List (ℕ × ℕ)) (k v : ℕ) → InPairs k v (pairs h) ↔ (find h k ≡ some v)
pairs_iff [] k v = ((λ i. absurd i), (λ e. cc e))
pairs_iff ((k', v') ∷ h) k v =
    let (to, from) = pairs_iff h k v in
    let (out, in') = InPairs-drop_key (pairs h) k' k v in
    elim (Bool-cases (k' == k)) [
      | inl t ↦ rw t (
        (λ i. elim i [ inl x ↦ ap some x.1 | inr x ↦ absurd ((out x).0 ((==_iff k' k).0 t)) ]),
        λ e. inl ((==_iff k' k).0 t, (let h : v' ≡ v = cc e in h)),
      )
      | inr f ↦ rw f (
        (λ i. elim i [ inl x ↦ ground (arith, x.0, f) | inr x ↦ to (out x).1 ]),
        λ e. inr (in' ((λ q. ground (arith, q, f)), from e)),
      )
    ]

abbrev pub list_infra : Vppinfra
list_infra = record {
  vec_add1 = λ v x. v ++ x ∷ [];
  vec_validate_init_empty = λ v i e. v ++ replicate (suc i - length v) e;
  Hash = List (ℕ × ℕ);
  hash_null = [];
  hash_get = find;
  hash_set = λ h k v. (k, v) ∷ h;
  hash_unset = drop_key;
  hash_pairs = pairs;
  vec_add1_lem = λ v x. refl;
  vec_validate_init_empty_lem = λ v i e. refl;
  get-null = λ j. refl;
  get-set = λ h k v j. refl;
  get-unset = find-drop_key;
  pairs_iff = pairs_iff;
}

-- Interface 1 is of Ethernet, interface 0 is not.
abbrev pub port : HwInterface
port = record {
  hw_if_index = 1;
  sw_if_index = 1;
  name = b't' ∷ b'a' ∷ b'p' ∷ b'0' ∷ [];
  hw_address = some (2 ∷ 0 ∷ 0 ∷ 0 ∷ 0 ∷ 1 ∷ []);
  hw_class_index = 7;
  output_node_index = 40;
}

abbrev pub local : HwInterface
local = record {
  hw_if_index = 0;
  sw_if_index = 0;
  name = b'l' ∷ [];
  hw_address = none;
  hw_class_index = 3;
  output_node_index = 39;
}

abbrev pub vpp : Vpp
vpp = record {
  hw_interfaces = 0 ∷ 1 ∷ [];
  get_hw_interface = λ i. if i == 0 then some local else if i == 1 then some port else none;
  ethernet_class_index = 7;
  node_index_by_name = λ s. 30;
  format_u = λ n. b'0' ∷ [];
  vlib_buffer_rewind =
      λ b. record b { position = 128; current_length = b.current_length + b.position - 128 };
  vlib_buffer_advance =
      λ b n. record b { position = b.position + n; current_length = b.current_length - n };
}

abbrev pub linux : Linux
linux = record {
  open_tun = some 5;
  tunsetiff = true;
  fionbio = true;
  socket = some 6;
  siocsifhwaddr = true;
  siocgifindex = some 12;
}

-- Linux gives no index for the tap.
abbrev pub linux_no_index : Linux
linux_no_index = record linux { siocgifindex = none }

abbrev pub counters : Counters
counters = record {
  loop_if_cnt = 0;
  host_if_cnt = 0;
  giga_if_cnt = 0;
  tap_if_cnt = 0;
  other_if_cnt = 0;
}

abbrev pub start : State list_infra
start = record { main = cplane_netdev_init list_infra 100 10 11 12; counters = counters }

-- Interface 1 has the tap with descriptor 5 and kernel index 12.
abbrev pub joined : Main list_infra
joined = record (cplane_netdev_init list_infra 100 10 11 12) {
  sw_if_index_to_tap_fd = invalid ∷ 5 ∷ [];
  sw_if_index_to_tap_if_index = invalid ∷ 12 ∷ [];
  tap_fd_to_sw_if_index = invalid ∷ invalid ∷ invalid ∷ invalid ∷ invalid ∷ 1 ∷ [];
  tap_if_index_to_sw_if_index = (12, 1) ∷ [];
}

-- An ARP reply that interface `sw` received.
abbrev pub arp_reply : ℕ → Buffer
arp_reply sw = record {
  memory = λ i. if i == 140 then 8 else if i == 141 then 6 else if i == 149 then 2 else 0;
  position = 128;
  current_length = 42;
  next_present = false;
  next_buffer = 0;
  total_length_valid = false;
  total_length_not_including_first_buffer = 0;
  sw_if_index_rx = sw;
  sw_if_index_tx = sw;
}
