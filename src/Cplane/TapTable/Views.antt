-- ===== src/Cplane/TapTable/Views.antt =====
-- The tables of cplane_netdev.c, operation by operation: no access is out of bounds where it is
-- claimed, and what a table says after an operation.
use routerd.Prelude.{
  ℕ, suc, ◌-◌, ◌<◌, ◌≤◌, ◌≡◌, ◌≢◌, ap, ◌∙◌, List, Option, none, some, get_or, set, length,
  replicate, invalid, ◌==◌, if◌then◌else◌, arith, length-append, length-replicate, length-set,
  get_or-set, get_or-append_replicate, get_elem?-get_or, get_or_beyond, store-some,
}
use native.Mathlib.Decide.{dec_lt}
use routerd.Vppinfra.{Vppinfra}
use routerd.Cplane.State.{Main}
use routerd.Cplane.TapTable.{
  tap_inject_insert_tap, tap_inject_delete_tap, tap_inject_lookup_tap_fd,
  tap_inject_lookup_sw_if_index_from_tap_fd, fd_of, if_of, sw_of, sw_of_if,
}

module _ (V : Vppinfra) where
  open V use {vec_validate_init_empty, hash_set, hash_unset, hash_get}

  abbrev pub grow : List ℕ → ℕ → List ℕ
  grow v i = vec_validate_init_empty v i invalid

  pub length-grow : (v : List ℕ) (i : ℕ) → i < length (grow v i)
  length-grow v i = rw (V.vec_validate_init_empty_lem v i invalid) (
      omega (
        arith,
        length-append v (replicate (suc i - length v) invalid),
        length-replicate (suc i - length v) invalid,
      ))

  length-grow_le : (v : List ℕ) (i : ℕ) → length v ≤ length (grow v i)
  length-grow_le v i =
      rw (V.vec_validate_init_empty_lem v i invalid)
        (omega (arith, length-append v (replicate (suc i - length v) invalid)))

  pub get_or-grow : (v : List ℕ) (i j : ℕ) → get_or (grow v i) j invalid ≡ get_or v j invalid
  get_or-grow v i j =
      rw (V.vec_validate_init_empty_lem v i invalid)
        (get_or-append_replicate v (suc i - length v) j invalid)

  -- Writing an entry of a vector that was grown for it.
  get_or-set-grow :
      (v : List ℕ) (i j x : ℕ)
      → get_or (set (grow v i) i x) j invalid ≡ (if i == j then x else get_or v j invalid)
  get_or-set-grow v i j x =
      get_or-set (grow v i) i j x invalid (length-grow v i)
      ∙ ap (λ k. if i == j then x else k) (get_or-grow v i j)

  -- The state that an insertion leaves.
  abbrev pub inserted : Main V → ℕ → ℕ → ℕ → Main V
  inserted im sw fd kern = record im {
    sw_if_index_to_tap_fd = set (grow im.sw_if_index_to_tap_fd sw) sw fd;
    sw_if_index_to_tap_if_index = set (grow im.sw_if_index_to_tap_if_index sw) sw kern;
    tap_fd_to_sw_if_index = set (grow im.tap_fd_to_sw_if_index fd) fd sw;
    tap_if_index_to_sw_if_index = hash_set im.tap_if_index_to_sw_if_index kern sw;
  }

  pub insert-inserted :
      (im : Main V) (sw fd kern : ℕ)
      → tap_inject_insert_tap V im sw fd kern ≡ some (inserted im sw fd kern)
  unfolding tap_inject_insert_tap
  insert-inserted im sw fd kern = rw (
    store-some (grow im.sw_if_index_to_tap_fd sw) sw fd (length-grow _ sw),
    store-some (grow im.sw_if_index_to_tap_if_index sw) sw kern (length-grow _ sw),
    store-some (grow im.tap_fd_to_sw_if_index fd) fd sw (length-grow _ fd),
  )

  -- What the four tables of `im'` say, by what those of `im` said, when `sw`, `fd` and `kern` were
  -- set to new values.
  pub record Updates (im im' : Main V) (sw fd kern : ℕ) (fd' if' sw' : ℕ) (hash' : Option ℕ)
      : Type 0 where
    pub fds : (j : ℕ) → fd_of V im' j ≡ (if sw == j then fd' else fd_of V im j)
    pub ifs : (j : ℕ) → if_of V im' j ≡ (if sw == j then if' else if_of V im j)
    pub sws : (j : ℕ) → sw_of V im' j ≡ (if fd == j then sw' else sw_of V im j)
    pub hash : (j : ℕ) → sw_of_if V im' j ≡ (if kern == j then hash' else sw_of_if V im j)

  pub inserted-Updates :
      (im : Main V) (sw fd kern : ℕ)
      → Updates im (inserted im sw fd kern) sw fd kern fd kern sw (some sw)
  inserted-Updates im sw fd kern = record {
    fds = λ j. get_or-set-grow im.sw_if_index_to_tap_fd sw j fd;
    ifs = λ j. get_or-set-grow im.sw_if_index_to_tap_if_index sw j kern;
    sws = λ j. get_or-set-grow im.tap_fd_to_sw_if_index fd j sw;
    hash = λ j. V.get-set im.tap_if_index_to_sw_if_index kern sw j;
  }

  -- Every interface that has a tap has its entries in the other two vectors.
  pub record IsSafe (im : Main V) : Type 0 where
    pub bounds :
        (sw : ℕ)
        → fd_of V im sw ≢ invalid
        → (sw < length im.sw_if_index_to_tap_if_index)
          × (fd_of V im sw < length im.tap_fd_to_sw_if_index)

  pub lt_of_mapped :
      (im : Main V) (sw : ℕ) → fd_of V im sw ≢ invalid → sw < length im.sw_if_index_to_tap_fd
  lt_of_mapped im sw h = elim (dec_lt sw (length im.sw_if_index_to_tap_fd)) [
    | yes p ↦ p
    | no p ↦ absurd (h (get_or_beyond im.sw_if_index_to_tap_fd sw invalid (omega arith)))
  ]

  -- The state that a deletion leaves.
  abbrev pub deleted : Main V → ℕ → Main V
  deleted im sw = record im {
    sw_if_index_to_tap_fd = set im.sw_if_index_to_tap_fd sw invalid;
    sw_if_index_to_tap_if_index = set im.sw_if_index_to_tap_if_index sw invalid;
    tap_fd_to_sw_if_index = set im.tap_fd_to_sw_if_index (fd_of V im sw) invalid;
    tap_if_index_to_sw_if_index = hash_unset im.tap_if_index_to_sw_if_index (if_of V im sw);
  }

  pub delete-deleted :
      (im : Main V) (sw : ℕ)
      → IsSafe im
      → fd_of V im sw ≢ invalid
      → tap_inject_delete_tap V im sw ≡ some (deleted im sw)
  unfolding tap_inject_delete_tap
  delete-deleted im sw v h = rw (
    get_elem?-get_or im.sw_if_index_to_tap_fd sw invalid (lt_of_mapped im sw h),
    get_elem?-get_or im.sw_if_index_to_tap_if_index sw invalid (v.bounds sw h).0,
    store-some im.sw_if_index_to_tap_if_index sw invalid (v.bounds sw h).0,
    store-some im.sw_if_index_to_tap_fd sw invalid (lt_of_mapped im sw h),
    store-some im.tap_fd_to_sw_if_index (fd_of V im sw) invalid (v.bounds sw h).1,
  )

  pub deleted-Updates :
      (im : Main V) (sw : ℕ)
      → IsSafe im
      → fd_of V im sw ≢ invalid
      → Updates im (deleted im sw) sw (fd_of V im sw) (if_of V im sw) invalid invalid invalid none
  deleted-Updates im sw v h = record {
    fds = λ j. get_or-set im.sw_if_index_to_tap_fd sw j invalid invalid (lt_of_mapped im sw h);
    ifs = λ j. get_or-set im.sw_if_index_to_tap_if_index sw j invalid invalid (v.bounds sw h).0;
    sws = λ j.
        get_or-set im.tap_fd_to_sw_if_index (fd_of V im sw) j invalid invalid (v.bounds sw h).1;
    hash = λ j. V.get-unset im.tap_if_index_to_sw_if_index (if_of V im sw) j;
  }

  pub inserted-IsSafe : (im : Main V) (sw fd kern : ℕ) → IsSafe im → IsSafe (inserted im sw fd kern)
  inserted-IsSafe im sw fd kern v = record {
    bounds = λ j h. ground (
      arith,
      (inserted-Updates im sw fd kern).fds j,
      v.bounds j,
      length-set (grow im.sw_if_index_to_tap_if_index sw) sw kern,
      length-set (grow im.tap_fd_to_sw_if_index fd) fd sw,
      length-grow im.sw_if_index_to_tap_if_index sw,
      length-grow im.tap_fd_to_sw_if_index fd,
      length-grow_le im.sw_if_index_to_tap_if_index sw,
      length-grow_le im.tap_fd_to_sw_if_index fd,
    );
  }

  pub deleted-IsSafe :
      (im : Main V) (sw : ℕ) → IsSafe im → fd_of V im sw ≢ invalid → IsSafe (deleted im sw)
  deleted-IsSafe im sw v m = record {
    bounds = λ j h. ground (
      arith,
      (deleted-Updates im sw v m).fds j,
      v.bounds j,
      length-set im.sw_if_index_to_tap_if_index sw invalid,
      length-set im.tap_fd_to_sw_if_index (fd_of V im sw) invalid,
    );
  }

  -- The lookup by interface answers what the table says, grows the vector and changes nothing that
  -- a table says.
  pub lookup_tap_fd_lem :
      (im : Main V) (sw : ℕ)
      → tap_inject_lookup_tap_fd V im sw
        ≡ some
            (fd_of V im sw, record im { sw_if_index_to_tap_fd = grow im.sw_if_index_to_tap_fd sw })
  unfolding tap_inject_lookup_tap_fd
  lookup_tap_fd_lem im sw = rw (
    get_elem?-get_or (grow im.sw_if_index_to_tap_fd sw) sw invalid (length-grow _ sw),
    get_or-grow im.sw_if_index_to_tap_fd sw sw,
  )

  pub lookup_sw_if_index_lem :
      (im : Main V) (fd : ℕ)
      → tap_inject_lookup_sw_if_index_from_tap_fd V im fd
        ≡ some
            (sw_of V im fd, record im { tap_fd_to_sw_if_index = grow im.tap_fd_to_sw_if_index fd })
  unfolding tap_inject_lookup_sw_if_index_from_tap_fd
  lookup_sw_if_index_lem im fd = rw (
    get_elem?-get_or (grow im.tap_fd_to_sw_if_index fd) fd invalid (length-grow _ fd),
    get_or-grow im.tap_fd_to_sw_if_index fd fd,
  )

  pub grown-IsSafe :
      (im : Main V) (sw : ℕ)
      → IsSafe im
      → IsSafe (record im { sw_if_index_to_tap_fd = grow im.sw_if_index_to_tap_fd sw })
  grown-IsSafe im sw v = record {
    bounds = λ j h. ground (arith, get_or-grow im.sw_if_index_to_tap_fd sw j, v.bounds j);
  }
