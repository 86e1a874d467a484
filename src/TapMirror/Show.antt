-- ===== src/TapMirror/Show.antt =====
-- `show tap-mirror` of tap_mirror/tap_mirror_cli.c: the rows it prints.
pub mod Rows
use routerd.Prelude.{
  ℕ, zero, suc, ◌+◌, List, [], ◌∷◌, ◌++◌, Option, none, some, ◌>>=◌, ltb, length, ℤ, is_positive,
  if◌then◌else◌,
}
use routerd.TapMirror.State.{TapContext, Mirror, tap_mirror_is_enabled}

-- A row: the index, the name of the node, and the names of its taps. The title and the blank lines are
-- always the same.
pub data MirrorOutput : Type 0 where
  blank title rule : MirrorOutput
  row : ℕ → List ℕ → List ℕ → MirrorOutput

-- `format` of "%s" prints `null_text` for a null name.
abbrev pub name_text : List ℕ → Option (List ℕ) → List ℕ
name_text null_text none = null_text
name_text null_text (some s) = s

module _ (null_text : List ℕ) where
  -- The loop over the descriptors, with the names from the same index on. A comma follows where more
  -- descriptors do, whether or not they are shown.
  unfoldable pub tap_fds_str : List ℤ → List (Option (List ℕ)) → Option (List ℕ)
  tap_fds_str [] names = some []
  tap_fds_str (fd ∷ fds) [] = let rest = tap_fds_str fds [] in if is_positive fd then none else rest
  tap_fds_str (fd ∷ fds) (name ∷ names) =
      let rest = tap_fds_str fds names in
      if is_positive fd
      then (rest >>= λ s.
          some (name_text null_text name ++ (if ltb 0 (length fds) then b',' ∷ s else s)))
      else rest

  unfoldable pub show_contexts : ℕ → List (Option TapContext) → Option (List MirrorOutput)
  show_contexts i [] = some []
  show_contexts i (none ∷ contexts) = show_contexts (i + 1) contexts
  show_contexts i (some ctx ∷ contexts) = tap_fds_str ctx.tap_fds ctx.tap_names >>= λ s.
      show_contexts (i + 1) contexts >>= λ rows. some (row i ctx.target_node_name s ∷ rows)

  unfoldable pub show_tap_mirror_fn : Mirror → Option (List MirrorOutput)
  show_tap_mirror_fn xm =
      let rows = show_contexts 0 xm.contexts in
      if tap_mirror_is_enabled xm
      then (rows >>= λ rs. some (blank ∷ title ∷ rule ∷ rs ++ blank ∷ []))
      else some []
