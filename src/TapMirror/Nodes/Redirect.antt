-- ===== src/TapMirror/Nodes/Redirect.antt =====
-- The node functions of tap_mirror.c: mirroring a node and taking it back.
use routerd.Prelude.{
  ◌≢◌, refl, ℕ, ◌+◌, ◌≡◌, sym, ap, ◌∙◌, subst, List, [], ◌∷◌, ◌++◌, Option, none, some, ◌>>=◌, true,
  false, Bool-cases, inl, inr, ℤ, is_positive, load, set, length, All, Returns, Returns->>=, arith,
}
use routerd.TapMirror.State.{TapContext, Mirror, Nodes, Call, call_node, TapLinux}
use routerd.TapMirror.Taps.Find.{begins, ContextOk, matching, begins_refl}
use routerd.TapMirror.Contexts.{
  put, find_context, free_slot, new_context, count_taps, enable_tap_mirror, disable_tap_mirror,
}
use routerd.TapMirror.Contexts.WellFormed.{
  All-load, free_slot-some, context_of, find_context_lem, load-set, set_twice, set-load, put_back,
  context_of-set,
}
use routerd.TapMirror.Contexts.Enable.{with_tap, Enabled, enable_tap_mirror_lem}
use routerd.TapMirror.Contexts.Disable.{Removed, Disabled, disable_tap_mirror_lem}
use routerd.TapMirror.Nodes.{mirror_packets, get_event_type, tap_mirror_input_fn}

module _ (nodes : Nodes) where
  -- A context that is found for a runtime's node, in each of its two states.
  pub input_released :
      (clone_of : ℕ → Option ℕ) (xm : Mirror) (rt i : ℕ) (c : TapContext) (pkts : List ℕ)
      → find_context xm.contexts (nodes.node_name rt) 0 ≡ some (some i)
      → load xm.contexts i ≡ some (some c)
      → c.request_to_free ≡ true
      → tap_mirror_input_fn nodes clone_of xm rt pkts
        ≡ some (
          record xm {
            contexts = set xm.contexts i none;
            functions = put xm.functions c.target_rt c.target_fn;
          },
          call_node c.target_fn pkts ∷ [],
        )
  unfolding tap_mirror_input_fn get_event_type
  input_released clone_of xm rt i c pkts e l r =
      rw (tap_mirror_input_fn, get_event_type, e, ◌>>=◌) (rw (l, r) refl)

  input_mirrors :
      (clone_of : ℕ → Option ℕ) (xm : Mirror) (rt i : ℕ) (c : TapContext) (pkts : List ℕ)
      → find_context xm.contexts (nodes.node_name rt) 0 ≡ some (some i)
      → load xm.contexts i ≡ some (some c)
      → c.request_to_free ≡ false
      → tap_mirror_input_fn nodes clone_of xm rt pkts ≡ (
          mirror_packets clone_of c.redirector_node_index i pkts >>= λ calls.
          some (xm, calls ++ call_node c.target_fn pkts ∷ []))
  unfolding tap_mirror_input_fn get_event_type
  input_mirrors clone_of xm rt i c pkts e l r =
      rw (tap_mirror_input_fn, get_event_type, e, ◌>>=◌) (rw (l, r) refl)

  -- A context that was made for a tap and asked to be freed: the node's next frame undoes it.
  released :
      (clone_of : ℕ → Option ℕ) (xm xm' : Mirror) (node tap pkts : List ℕ) (i rt : ℕ)
      (d : TapContext)
      → All (ContextOk (length node) (length tap)) xm'.contexts
      → context_of xm.contexts node 0 ≡ none
      → load xm.contexts i ≡ some none
      → nodes.node_name rt ≡ node
      → xm'.contexts ≡ set xm.contexts i (some d)
      → xm'.functions ≡ put xm.functions rt nodes.tap_mirror_input
      → (d.target_node_name ≡ node)
        × (d.target_fn ≡ xm.functions rt)
        × (d.target_rt ≡ rt)
        × (d.request_to_free ≡ true)
      → Returns
          (λ r.
            (r.0.contexts ≡ xm.contexts)
            × ((j : ℕ) → r.0.functions j ≡ xm.functions j)
            × (r.1 ≡ call_node (xm.functions rt) pkts ∷ []))
          (tap_mirror_input_fn nodes clone_of xm' rt pkts)
  released clone_of xm xm' node tap pkts i rt d ok f l nm cs fns k =
      let same : begins d.target_node_name node ≡ true =
        subst (λ m. begins d.target_node_name m ≡ true) k.0 (begins_refl d.target_node_name) in
      let named : context_of xm'.contexts node 0 ≡ some i =
        rw cs (context_of-set xm.contexts node 0 i d f l same ∙ ap some (zero_add i)) in
      let at : load xm'.contexts i ≡ some (some d) =
        rw cs (load-set xm.contexts i (some d) none l) in
      let found : find_context xm'.contexts (nodes.node_name rt) 0 ≡ some (some i) =
        rw (nm, find_context_lem xm'.contexts node 0 (length tap) ok, named) refl in
      rw (input_released clone_of xm' rt i d pkts found at k.3) (
        rw cs (set_twice xm.contexts i (some d) none ∙ set-load xm.contexts i none l),
        (λ j. rw (fns, k.1, k.2) (put_back xm.functions rt nodes.tap_mirror_input j)),
        ap (λ x. call_node x pkts ∷ []) k.1,
      )
    where
      zero_add : (m : ℕ) → 0 + m ≡ m
      zero_add m = omega arith

  one_tap :
      (node tap : List ℕ) (rt fn : ℕ) (fd : ℤ) (d : ℕ)
      → let c = with_tap (new_context nodes node rt fn) fd tap in
        d + length (matching c.tap_fds c.tap_names tap) ≡ count_taps c.tap_fds → d ≡ 0
  unfolding matching count_taps
  one_tap node tap rt fn fd d e = elim (Bool-cases (is_positive fd)) [
    | inl t ↦ let h : d + 1 ≡ 1 = simp (t, begins_refl tap) at e in omega (arith, h)
    | inr f ↦ let h : d + 0 ≡ 0 = simp f at e in omega (arith, h)
  ]

  abbrev Undone : Mirror → ℕ → List ℕ → Mirror × List Call → Type 0
  Undone xm rt pkts r =
      (r.0.contexts ≡ xm.contexts)
      × ((j : ℕ) → r.0.functions j ≡ xm.functions j)
      × (r.1 ≡ call_node (xm.functions rt) pkts ∷ [])

  found_again :
      (xm e : Mirror) (node tap : List ℕ) (k rt : ℕ) (fd : ℤ)
      → context_of xm.contexts node 0 ≡ none
      → load xm.contexts k ≡ some none
      → e.contexts
        ≡ set xm.contexts k (some (with_tap (new_context nodes node rt (xm.functions rt)) fd tap))
      → context_of e.contexts node 0 ≡ some (0 + k)
  found_again xm e node tap k rt fd f l cs =
      rw cs (context_of-set xm.contexts node 0 k _ f l (begins_refl node))

  undo :
      (clone_of : ℕ → Option ℕ) (xm e : Mirror) (d : Mirror × List Call) (node tap pkts : List ℕ)
      (k rt : ℕ) (fd : ℤ)
      → context_of xm.contexts node 0 ≡ none
      → load xm.contexts k ≡ some none
      → nodes.node_name rt ≡ node
      → e.contexts
        ≡ set xm.contexts k (some (with_tap (new_context nodes node rt (xm.functions rt)) fd tap))
      → e.functions ≡ put xm.functions rt nodes.tap_mirror_input
      → d.0.functions ≡ e.functions
      → All (ContextOk (length node) (length tap)) d.0.contexts
      → Removed e node tap d
      → Returns (Undone xm rt pkts) (tap_mirror_input_fn nodes clone_of d.0 rt pkts)
  undo clone_of xm e d node tap pkts k rt fd f l nm cs fns df ok
        (k', c, dd, fk, lk, dc, mm, cnt, _, nms, fn, rts, req, _) =
      let c0 = with_tap (new_context nodes node rt (xm.functions rt)) fd tap in
      let again = found_again xm e node tap k rt fd f l cs in
      let kk0 : k' ≡ 0 + k = cc (fk, again) in
      let kk : k' ≡ k = omega (arith, kk0) in
      let at : load e.contexts k ≡ some (some c0) =
        rw cs (load-set xm.contexts k (some c0) none l) in
      let at' : load e.contexts k ≡ some (some c) =
        subst (λ m. load e.contexts m ≡ some (some c)) kk lk in
      let cc0 : c ≡ c0 = cc (at, at') in
      let cnt0 : count_taps dd.tap_fds ≡ 0 =
        one_tap node tap rt (xm.functions rt) fd (count_taps dd.tap_fds) (
          subst
            (λ x.
              count_taps dd.tap_fds + length (matching x.tap_fds x.tap_names tap)
              ≡ count_taps x.tap_fds)
            cc0 cnt) in
      released clone_of xm d.0 node tap pkts k rt dd ok f l nm
        (dc
          ∙ subst (λ m. set e.contexts m (some dd) ≡ set xm.contexts k (some dd)) (sym kk)
              (rw cs (set_twice xm.contexts k (some c0) (some dd))))
        (df ∙ fns)
        (
          nms ∙ ap (λ x. x.target_node_name) cc0,
          fn ∙ ap (λ x. x.target_fn) cc0,
          rts ∙ ap (λ x. x.target_rt) cc0,
          req.0 cnt0,
        )

  -- Enabling a tap for a node that no context is found for, where a slot is free, VPP has the node,
  -- and no name in the contexts is shorter than the name it is compared with, disabling it again and
  -- letting the node have its next frame makes no access out of bounds: afterwards the contexts and
  -- the functions of all nodes are those before, whether or not the tap could be opened, and the
  -- frame went to the node's own function and nowhere else.
  pub mirror_undone :
      (os : TapLinux) (clone_of : ℕ → Option ℕ) (xm : Mirror) (node tap pkts : List ℕ) (i rt : ℕ)
      → All (ContextOk (length node) (length tap)) xm.contexts
      → context_of xm.contexts node 0 ≡ none
      → free_slot xm.contexts 0 ≡ some i
      → nodes.node_runtime node ≡ some rt
      → nodes.node_name rt ≡ node
      → Returns
          (λ r.
            (r.0.contexts ≡ xm.contexts)
            × ((j : ℕ) → r.0.functions j ≡ xm.functions j)
            × (r.1 ≡ call_node (xm.functions rt) pkts ∷ []))
          (enable_tap_mirror nodes os xm node tap >>= λ e.
            disable_tap_mirror e.1 node tap >>= λ d. tap_mirror_input_fn nodes clone_of d.0 rt pkts)
  mirror_undone os clone_of xm node tap pkts i rt p f s n nm =
      let (j, q, l) = free_slot-some xm.contexts 0 i s in
      let no_slot : All (λ c. c ≢ none) xm.contexts → ⊥ =
        λ x. All-load (λ c. c ≢ none) xm.contexts j none x l refl in
      Returns->>= (Enabled nodes os xm node tap) _ _ _
        (enable_tap_mirror_lem nodes os xm node tap p)
        λ e w. elim w.2 [
          | inl m ↦ absurd (elim m.4 [ inl x ↦ no_slot x | inr x ↦ cc (x, n) ])
          | inr (inl (z, fz, (k, c, fd, g, _, _, _))) ↦ absurd (cc (g, f))
          | inr (inr (z, (k, rt', fd, _, l, n', ch, fns, cs))) ↦
              let rts : rt' ≡ rt = cc (n, n') in
              Returns->>= (Disabled e.1 node tap) _ _ _ (disable_tap_mirror_lem e.1 node tap w.0)
                λ d v. elim v.2 [
                  | inl x ↦ absurd (cc (x.0, found_again xm e.1 node tap k rt' fd f l cs))
                  | inr x ↦
                      undo clone_of xm e.1 d node tap pkts k rt fd f l nm
                        (subst
                          (λ m.
                            e.1.contexts
                            ≡ set xm.contexts k (
                                some (with_tap (new_context nodes node m (xm.functions m)) fd tap)))
                          rts cs)
                        (subst (λ m. e.1.functions ≡ put xm.functions m nodes.tap_mirror_input) rts
                          fns)
                        v.1 v.0 x
                ]
        ]
