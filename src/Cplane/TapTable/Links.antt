-- ===== src/Cplane/TapTable/Links.antt =====
-- The tables of cplane_netdev.c together: an interface, a descriptor and a kernel index are joined
-- one to one.
use routerd.Prelude.{
  ℕ, ◌≡◌, ◌≢◌, sym, ap, ◌∙◌, none, some, length, invalid, arith, get_or_beyond, ◌>>=◌,
}
use native.Mathlib.Decide.{dec_lt}
use routerd.Vppinfra.{Vppinfra}
use routerd.Cplane.State.{Main}
use routerd.Cplane.TapTable.{
  tap_inject_insert_tap, tap_inject_delete_tap, fd_of, if_of, sw_of, sw_of_if,
}
use routerd.Cplane.TapTable.Views.{
  Updates, IsSafe, inserted, inserted-Updates, insert-inserted, deleted, deleted-Updates,
  delete-deleted,
}

module _ (V : Vppinfra) where
  pub record IsLinked (im : Main V) : Type 0 where
    pub mapped :
        (sw : ℕ)
        → fd_of V im sw ≢ invalid
        → (sw ≢ invalid)
          × (if_of V im sw ≢ invalid)
          × (sw_of V im (fd_of V im sw) ≡ sw)
          × (sw_of_if V im (if_of V im sw) ≡ some sw)
    pub back :
        (fd : ℕ) → sw_of V im fd ≢ invalid → (fd ≢ invalid) × (fd_of V im (sw_of V im fd) ≡ fd)
    pub kern :
        (k sw : ℕ) → sw_of_if V im k ≡ some sw → (fd_of V im sw ≢ invalid) × (if_of V im sw ≡ k)

  pub IsLinked-IsSafe : (im : Main V) → IsLinked im → IsSafe V im
  IsLinked-IsSafe im l = record {
    bounds = λ sw h.
        let m = l.mapped sw h in
        (
          elim (dec_lt sw (length im.sw_if_index_to_tap_if_index)) [
            | yes p ↦ p
            | no p ↦
                absurd (m.1 (get_or_beyond im.sw_if_index_to_tap_if_index sw invalid (omega arith)))
          ],
          elim (dec_lt (fd_of V im sw) (length im.tap_fd_to_sw_if_index)) [
            | yes p ↦ p
            | no p ↦ absurd (
                m.0 (
                  sym m.2
                  ∙ get_or_beyond im.tap_fd_to_sw_if_index (fd_of V im sw) invalid (omega arith)))
          ],
        );
  }

  -- Nothing is joined to the interface, the descriptor or the kernel index.
  pub record IsFresh (im : Main V) (sw fd kern : ℕ) : Type 0 where
    pub no_fd : fd_of V im sw ≡ invalid
    pub no_if : if_of V im sw ≡ invalid
    pub no_sw : sw_of V im fd ≡ invalid
    pub no_kern : sw_of_if V im kern ≡ none
    pub is_sw : sw ≢ invalid
    pub is_fd : fd ≢ invalid
    pub is_kern : kern ≢ invalid

  module _ (im im' : Main V) (sw fd kern : ℕ) (l : IsLinked im) where
    set-IsLinked :
        IsFresh im sw fd kern → Updates V im im' sw fd kern fd kern sw (some sw) → IsLinked im'
    set-IsLinked f u = record {
      mapped = λ j h.
          ground
            (arith, u.fds j, u.ifs j, u.sws (fd_of V im' j), u.hash (if_of V im' j), l.mapped j);
      back = λ j h. ground (arith, u.sws j, u.fds (sw_of V im' j), l.back j);
      kern = λ k j h. ground (arith, u.hash k, u.fds j, u.ifs j, l.kern k j);
    }

  module _ (im im' : Main V) (sw : ℕ) (l : IsLinked im) where
    clear-IsLinked :
        fd_of V im sw ≢ invalid
        → Updates V im im' sw (fd_of V im sw) (if_of V im sw) invalid invalid invalid none
        → IsLinked im'
    clear-IsLinked m u = record {
      mapped = λ j h. ground (
        arith,
        u.fds j,
        u.ifs j,
        u.sws (fd_of V im j),
        u.hash (if_of V im j),
        l.mapped j,
        l.mapped sw m,
      );
      back = λ j h. ground (arith, u.sws j, u.fds (sw_of V im j), l.back j);
      kern = λ k j h. ground (arith, u.hash k, u.fds j, u.ifs j, l.kern k j, l.mapped sw m);
    }

  -- Joining a fresh interface, descriptor and kernel index makes no access out of bounds and keeps
  -- the tables linked; then each of the three leads to the others, and other entries stay.
  pub insert_tap-IsLinked :
      (im : Main V) (sw fd kern : ℕ)
      → IsLinked im
      → IsFresh im sw fd kern
      → (im' : Main V) × (tap_inject_insert_tap V im sw fd kern ≡ some im')
        × IsLinked im'
        × Updates V im im' sw fd kern fd kern sw (some sw)
  insert_tap-IsLinked im sw fd kern l f = (
    inserted V im sw fd kern,
    insert-inserted V im sw fd kern,
    set-IsLinked im (inserted V im sw fd kern) sw fd kern l f (inserted-Updates V im sw fd kern),
    inserted-Updates V im sw fd kern,
  )

  -- Deleting the tap of an interface that has one makes no access out of bounds, keeps the tables
  -- linked, and takes out just the entries of the interface, of its descriptor and of its kernel index.
  pub delete_tap-IsLinked :
      (im : Main V) (sw : ℕ)
      → IsLinked im
      → fd_of V im sw ≢ invalid
      → (im' : Main V) × (tap_inject_delete_tap V im sw ≡ some im')
        × IsLinked im'
        × Updates V im im' sw (fd_of V im sw) (if_of V im sw) invalid invalid invalid none
  delete_tap-IsLinked im sw l m =
      let v = IsLinked-IsSafe im l in
      let u = deleted-Updates V im sw v m in
      (deleted V im sw, delete-deleted V im sw v m, clear-IsLinked im (deleted V im sw) sw l m u, u)

  -- Two states whose tables say the same.
  pub record SameLinks (im im' : Main V) : Type 0 where
    pub fds : (j : ℕ) → fd_of V im' j ≡ fd_of V im j
    pub ifs : (j : ℕ) → if_of V im' j ≡ if_of V im j
    pub sws : (j : ℕ) → sw_of V im' j ≡ sw_of V im j
    pub hash : (j : ℕ) → sw_of_if V im' j ≡ sw_of_if V im j

  same_after :
      (im im' im'' : Main V) (sw fd kern : ℕ)
      → IsFresh im sw fd kern
      → Updates V im im' sw fd kern fd kern sw (some sw)
      → Updates V im' im'' sw (fd_of V im' sw) (if_of V im' sw) invalid invalid invalid none
      → SameLinks im im''
  same_after im im' im'' sw fd kern f u w = record {
    fds = λ j. ground (arith, u.fds j, w.fds j);
    ifs = λ j. ground (arith, u.ifs j, w.ifs j);
    sws = λ j. ground (arith, u.sws j, w.sws j, u.fds sw);
    hash = λ j. ground (arith, u.hash j, w.hash j, u.ifs sw);
  }

  -- Inserting a fresh tap and deleting it again makes no access out of bounds, and leaves tables
  -- that say what they said before.
  pub delete_tap-insert_tap :
      (im : Main V) (sw fd kern : ℕ)
      → IsLinked im
      → IsFresh im sw fd kern
      → (im'' : Main V) × ((tap_inject_insert_tap V im sw fd kern >>= λ im'.
            tap_inject_delete_tap V im' sw)
          ≡ some im'')
        × SameLinks im im''
  delete_tap-insert_tap im sw fd kern l f =
      let (im', e, l', u) = insert_tap-IsLinked im sw fd kern l f in
      let m : fd_of V im' sw ≢ invalid = ground (arith, u.fds sw) in
      let (im'', e', _, w) = delete_tap-IsLinked im' sw l' m in
      (im'', rw e e', same_after im im' im'' sw fd kern f u w)

  inserted_by :
      (im im' : Main V) (sw fd kern : ℕ)
      → tap_inject_insert_tap V im sw fd kern ≡ some im'
      → Updates V im im' sw fd kern fd kern sw (some sw)
  inserted_by im im' sw fd kern e =
      let same : inserted V im sw fd kern ≡ im' = cc (insert-inserted V im sw fd kern) in
      rw (← same) (inserted-Updates V im sw fd kern)

  -- Inserting a second tap for an interface that has one, as a second `enable tap-inject` does,
  -- leaves the first descriptor joined to the interface while the interface is joined to the
  -- second: the tables are linked no more.
  pub insert_tap_twice :
      (im im' : Main V) (sw fd kern : ℕ)
      → IsLinked im
      → fd_of V im sw ≢ invalid
      → fd_of V im sw ≢ fd
      → tap_inject_insert_tap V im sw fd kern ≡ some im'
      → (sw_of V im' (fd_of V im sw) ≡ sw) × (fd_of V im' sw ≡ fd) × (¬ IsLinked im')
  insert_tap_twice im im' sw fd kern l m n e =
      let u = inserted_by im im' sw fd kern e in
      let old : sw_of V im' (fd_of V im sw) ≡ sw =
        ground (arith, u.sws (fd_of V im sw), l.mapped sw m) in
      let new : fd_of V im' sw ≡ fd = ground (arith, u.fds sw) in
      (
        old,
        new,
        λ l'.
            let b = l'.back (fd_of V im sw) (λ x. (l.mapped sw m).0 (sym old ∙ x)) in
            n (sym b.1 ∙ ap (fd_of V im') old ∙ new),
      )
