-- ===== src/Cplane/TapTable.antt =====
-- The tables of cplane_netdev.c that join an interface, its tap's descriptor and the tap's index in
-- the kernel. An access out of bounds is `none`.
pub mod Views
pub mod Links
use routerd.Prelude.{
  ℕ, List, Option, none, some, ◌>>=◌, load, store, get_or, invalid, ◌==◌, if◌then◌else◌,
}
use routerd.Vppinfra.{Vppinfra}
use routerd.Cplane.State.{Main}

module _ (V : Vppinfra) where
  open V use {vec_validate_init_empty, hash_set, hash_unset, hash_get}

  unfoldable pub tap_inject_insert_tap : Main V → ℕ → ℕ → ℕ → Option (Main V)
  tap_inject_insert_tap im sw_if_index tap_fd tap_if_index = do
    fds ←
        store (vec_validate_init_empty im.sw_if_index_to_tap_fd sw_if_index invalid) sw_if_index
          tap_fd
    ifs ←
        store (vec_validate_init_empty im.sw_if_index_to_tap_if_index sw_if_index invalid)
          sw_if_index tap_if_index
    sws ← store (vec_validate_init_empty im.tap_fd_to_sw_if_index tap_fd invalid) tap_fd sw_if_index
    some (record im {
      sw_if_index_to_tap_fd = fds;
      sw_if_index_to_tap_if_index = ifs;
      tap_fd_to_sw_if_index = sws;
      tap_if_index_to_sw_if_index =
          hash_set im.tap_if_index_to_sw_if_index tap_if_index sw_if_index;
    })

  pub tap_inject_delete_tap : Main V → ℕ → Option (Main V)
  tap_inject_delete_tap im sw_if_index = do
    tap_fd ← load im.sw_if_index_to_tap_fd sw_if_index
    tap_if_index ← load im.sw_if_index_to_tap_if_index sw_if_index
    ifs ← store im.sw_if_index_to_tap_if_index sw_if_index invalid
    fds ← store im.sw_if_index_to_tap_fd sw_if_index invalid
    sws ← store im.tap_fd_to_sw_if_index tap_fd invalid
    some (record im {
      sw_if_index_to_tap_fd = fds;
      sw_if_index_to_tap_if_index = ifs;
      tap_fd_to_sw_if_index = sws;
      tap_if_index_to_sw_if_index = hash_unset im.tap_if_index_to_sw_if_index tap_if_index;
    })

  -- The lookups grow the vector before they read it.
  pub tap_inject_lookup_tap_fd : Main V → ℕ → Option (ℕ × Main V)
  tap_inject_lookup_tap_fd im sw_if_index = do
    let fds = vec_validate_init_empty im.sw_if_index_to_tap_fd sw_if_index invalid
    fd ← load fds sw_if_index
    some (fd, record im { sw_if_index_to_tap_fd = fds })

  pub tap_inject_lookup_sw_if_index_from_tap_fd : Main V → ℕ → Option (ℕ × Main V)
  tap_inject_lookup_sw_if_index_from_tap_fd im tap_fd = do
    let sws = vec_validate_init_empty im.tap_fd_to_sw_if_index tap_fd invalid
    sw_if_index ← load sws tap_fd
    some (sw_if_index, record im { tap_fd_to_sw_if_index = sws })

  -- What the tables say, an entry past the end of a vector being unset.
  abbrev pub fd_of : Main V → ℕ → ℕ
  fd_of im sw_if_index = get_or im.sw_if_index_to_tap_fd sw_if_index invalid

  abbrev pub if_of : Main V → ℕ → ℕ
  if_of im sw_if_index = get_or im.sw_if_index_to_tap_if_index sw_if_index invalid

  abbrev pub sw_of : Main V → ℕ → ℕ
  sw_of im tap_fd = get_or im.tap_fd_to_sw_if_index tap_fd invalid

  abbrev pub sw_of_if : Main V → ℕ → Option ℕ
  sw_of_if im tap_if_index = hash_get im.tap_if_index_to_sw_if_index tap_if_index
