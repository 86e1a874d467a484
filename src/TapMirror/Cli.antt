-- ===== src/TapMirror/Cli.antt =====
-- tap_mirror_cli.c: `set tap-mirror` and `show tap-mirror`.
pub mod History
use routerd.Prelude.{
  ℕ, zero, suc, ◌+◌, ◌-◌, List, [], ◌∷◌, ◌++◌, Option, none, some, ◌>>=◌, Bool, true, false, ◌==◌,
  ltb, ℤ, pos, negsuc, is_positive, is_negative, length, if◌then◌else◌,
}
use routerd.TapMirror.State.{TapContext, Mirror, tap_mirror_is_enabled, Nodes, Call, TapLinux}
use routerd.TapMirror.Contexts.{enable_tap_mirror, disable_tap_mirror}

-- The words of a `set tap-mirror` line.
pub data MirrorWord : Type 0 where
  node : List ℕ → MirrorWord
  tap : List ℕ → MirrorWord
  reset other : MirrorWord

-- What the loop over the line has read.
pub record MirrorLine : Type 0 where
  pub node_name : Option (List ℕ)
  pub tap_name : Option (List ℕ)
  pub is_reset : Bool

unfoldable pub read_words : List MirrorWord → MirrorLine → Option MirrorLine
read_words [] l = some l
read_words (node s ∷ ws) l = read_words ws (record l { node_name = some s })
read_words (tap s ∷ ws) l = read_words ws (record l { tap_name = some s })
read_words (reset ∷ ws) l = read_words ws (record l { is_reset = true })
read_words (other ∷ ws) l = none

pub data MirrorError : Type 0 where
  unknown_word specify_both set_failed : MirrorError

module _ (nodes : Nodes) where
  -- `set_tap_mirror_fn`, for the names that the line gave.
  unfoldable pub set_tap_mirror :
      TapLinux → Mirror → List ℕ → List ℕ → Bool → Option (Option MirrorError × Mirror × List Call)
  set_tap_mirror os xm n t is_reset =
      if is_reset
      then (disable_tap_mirror xm n t >>= λ r. some (none, r.0, r.1))
      else (enable_tap_mirror nodes os xm n t >>= λ r.
          some ((if is_negative r.0 then some set_failed else none), r.1, r.2))

  unfoldable pub set_tap_mirror_fn :
      TapLinux → Mirror → List MirrorWord → Option (Option MirrorError × Mirror × List Call)
  set_tap_mirror_fn os xm ws =
      elim (read_words ws (record { node_name = none; tap_name = none; is_reset = false })) [
        | none ↦ some (some unknown_word, xm, [])
        | some l ↦ elim l.node_name [
          | none ↦ some (some specify_both, xm, [])
          | some n ↦ elim l.tap_name [
            | none ↦ some (some specify_both, xm, [])
            | some t ↦ set_tap_mirror os xm n t l.is_reset
          ]
        ]
      ]
