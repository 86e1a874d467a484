-- ===== src/Tests/Tables.antt =====
-- The tables of cplane_netdev.c at concrete inputs.
use routerd.Cplane.Api.{tap_inject_dump_handler}
use routerd.Cplane.Api.Dump.{Tells, tap_inject_dump_iff}
use routerd.Prelude.{
  ◌<◌, ◌^◌, ◌↔◌, ℕ, ◌≡◌, ◌≢◌, refl, subst, [], ◌∷◌, none, some, arith, invalid, ◌>>=◌, Returns, ◌⊎◌,
}
use routerd.Cplane.State.{Main}
use routerd.Cplane.TapTable.{
  sw_of_if, if_of, tap_inject_insert_tap, tap_inject_delete_tap, fd_of, sw_of,
}
use routerd.Cplane.TapTable.Views.{Updates}
use routerd.Cplane.TapTable.Links.{
  IsLinked, IsFresh, SameLinks, insert_tap-IsLinked, delete_tap-IsLinked, delete_tap-insert_tap,
  insert_tap_twice,
}
use routerd.Cplane.Connect.{tap_inject_tap_connect}
use routerd.Cplane.Connect.Descriptors.{Refused, Joined, connect_descriptors}
use routerd.Cplane.Handlers.{cplane_netdev_init}
use routerd.Cplane.Handlers.History.{init-IsLinked}
use routerd.Tests.Fixtures.{list_infra, joined, vpp, linux, port, start}

abbrev empty : Main list_infra
empty = cplane_netdev_init list_infra 100 10 11 12

empty-IsLinked : IsLinked list_infra empty
empty-IsLinked = init-IsLinked list_infra vpp 100 10 11 12

empty-IsFresh : IsFresh list_infra empty 1 5 12
unfolding cplane_netdev_init
empty-IsFresh = record {
  no_fd = refl;
  no_if = refl;
  no_sw = refl;
  no_kern = refl;
  is_sw = ground arith;
  is_fd = ground arith;
  is_kern = ground arith;
}

insert_computes : tap_inject_insert_tap list_infra empty 1 5 12 ≡ some joined
unfolding tap_inject_insert_tap cplane_netdev_init
insert_computes = refl

pub joined-IsLinked : IsLinked list_infra joined
joined-IsLinked =
    let (im', e, l, _) = insert_tap-IsLinked list_infra empty 1 5 12 empty-IsLinked empty-IsFresh in
    let same : im' ≡ joined = cc (e, insert_computes) in subst (IsLinked list_infra) same l

pub joined_words : (k v : ℕ) → sw_of_if list_infra joined k ≡ some v → (k < 2 ^ 32) × (v < 2 ^ 32)
joined_words k v e = ground (arith, e)

-- A second tap for interface 1.
abbrev twice : Main list_infra
twice = record joined {
  sw_if_index_to_tap_fd = invalid ∷ 8 ∷ [];
  sw_if_index_to_tap_if_index = invalid ∷ 13 ∷ [];
  tap_fd_to_sw_if_index =
      invalid ∷ invalid ∷ invalid ∷ invalid ∷ invalid ∷ 1 ∷ invalid ∷ invalid ∷ 1 ∷ [];
  tap_if_index_to_sw_if_index = (13, 1) ∷ (12, 1) ∷ [];
}

twice_computes : tap_inject_insert_tap list_infra joined 1 8 13 ≡ some twice
unfolding tap_inject_insert_tap
twice_computes = refl

has_tap : fd_of list_infra joined 1 ≢ invalid
has_tap = ground arith

other_tap : fd_of list_infra joined 1 ≢ 8
other_tap = ground arith

insert_tap-IsLinked_example :
    (im' : Main list_infra) × (tap_inject_insert_tap list_infra empty 1 5 12 ≡ some im')
    × IsLinked list_infra im'
    × Updates list_infra empty im' 1 5 12 5 12 1 (some 1)
insert_tap-IsLinked_example =
    insert_tap-IsLinked list_infra empty 1 5 12 empty-IsLinked empty-IsFresh

delete_tap-IsLinked_example :
    (im' : Main list_infra) × (tap_inject_delete_tap list_infra joined 1 ≡ some im')
    × IsLinked list_infra im'
    × Updates list_infra joined im' 1 5 12 invalid invalid invalid none
delete_tap-IsLinked_example = delete_tap-IsLinked list_infra joined 1 joined-IsLinked has_tap

delete_tap-insert_tap_example :
    (im'' : Main list_infra) × ((tap_inject_insert_tap list_infra empty 1 5 12 >>= λ im'.
    tap_inject_delete_tap list_infra im' 1)
      ≡ some im'')
    × SameLinks list_infra empty im''
delete_tap-insert_tap_example =
    delete_tap-insert_tap list_infra empty 1 5 12 empty-IsLinked empty-IsFresh

insert_tap_twice_example :
    (sw_of list_infra twice 5 ≡ 1) × (fd_of list_infra twice 1 ≡ 8) × (¬ IsLinked list_infra twice)
insert_tap_twice_example =
    insert_tap_twice list_infra joined twice 1 8 13 joined-IsLinked has_tap other_tap twice_computes

socket_differs : (fd s : ℕ) → linux.open_tun ≡ some fd → linux.socket ≡ some s → s ≢ fd
socket_differs fd s e f = ground (arith, e, f)

connect_descriptors_example :
    Returns
      (λ o.
        Refused list_infra linux port (0 ∷ 1 ∷ 2 ∷ []) start o
        ⊎ Joined list_infra linux port (0 ∷ 1 ∷ 2 ∷ []) start o)
      (tap_inject_tap_connect list_infra vpp linux start port)
connect_descriptors_example =
    connect_descriptors list_infra linux port (0 ∷ 1 ∷ 2 ∷ []) vpp start socket_differs

tap_inject_dump_iff_example :
    Tells 1 12 (tap_inject_dump_handler list_infra joined 3)
    ↔ ((fd_of list_infra joined 1 ≢ invalid) × (if_of list_infra joined 1 ≡ 12))
tap_inject_dump_iff_example =
    tap_inject_dump_iff list_infra joined 3 1 12 joined-IsLinked joined_words
