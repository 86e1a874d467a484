-- ===== src/TapMirror/Contexts/GetOrNew.antt =====
-- What `get_or_new_tap_mirror_context` of tap_mirror.c gives in each case.
use routerd.Prelude.{
  ◌>>=◌, length, ℕ, ◌≡◌, ◌⊎◌, refl, List, none, some, Option-cases, inl, inr, set, All,
}
use routerd.TapMirror.State.{Mirror, Nodes}
use routerd.TapMirror.Taps.Find.{ContextOk}
use routerd.TapMirror.Contexts.{put, free_slot, new_context, get_or_new_tap_mirror_context}
use routerd.TapMirror.Contexts.WellFormed.{context_of, find_context_lem}

module _ (nodes : Nodes) (xm : Mirror) (node : List ℕ) (m : ℕ)
    (ok : All (ContextOk (length node) m) xm.contexts) where
  pub got_old :
      (i : ℕ)
      → context_of xm.contexts node 0 ≡ some i
      → get_or_new_tap_mirror_context nodes xm node ≡ some (some i, xm)
  unfolding get_or_new_tap_mirror_context
  got_old i e = rw (get_or_new_tap_mirror_context, find_context_lem xm.contexts node 0 m ok, e) refl

  pub got_none :
      context_of xm.contexts node 0 ≡ none
      → (free_slot xm.contexts 0 ≡ none) ⊎ (nodes.node_runtime node ≡ none)
      → get_or_new_tap_mirror_context nodes xm node ≡ some (none, xm)
  unfolding get_or_new_tap_mirror_context
  got_none e (inl f) =
      rw (get_or_new_tap_mirror_context, find_context_lem xm.contexts node 0 m ok, e, ◌>>=◌)
        (rw (f) refl)
  got_none e (inr n) = elim (Option-cases (free_slot xm.contexts 0)) [
    | inl f ↦
        rw (get_or_new_tap_mirror_context, find_context_lem xm.contexts node 0 m ok, e, ◌>>=◌)
          (rw (f) refl)
    | inr (i, f) ↦
        rw (get_or_new_tap_mirror_context, find_context_lem xm.contexts node 0 m ok, e, ◌>>=◌)
          (rw (f, n) refl)
  ]

  pub got_new :
      (i rt : ℕ)
      → context_of xm.contexts node 0 ≡ none
      → free_slot xm.contexts 0 ≡ some i
      → nodes.node_runtime node ≡ some rt
      → get_or_new_tap_mirror_context nodes xm node
        ≡ some (
          some i,
          record xm {
            contexts = set xm.contexts i (some (new_context nodes node rt (xm.functions rt)));
            functions = put xm.functions rt nodes.tap_mirror_input;
          },
        )
  unfolding get_or_new_tap_mirror_context
  got_new i rt e f n =
      rw (get_or_new_tap_mirror_context, find_context_lem xm.contexts node 0 m ok, e, ◌>>=◌)
        (rw (f, n) refl)
