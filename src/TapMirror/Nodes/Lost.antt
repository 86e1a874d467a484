-- ===== src/TapMirror/Nodes/Lost.antt =====
-- tap_mirror.c: taps that are enabled and yet get no packets, and the packets the redirector takes.
use routerd.Prelude.{
  length, ℕ, zero, suc, ◌+◌, ◌≡◌, refl, ap, ◌∙◌, subst, List, [], ◌∷◌, ◌++◌, Option, none, some,
  ◌>>=◌, true, inl, inr, ℤ, pos, negsuc, is_positive, load, set, All, Returns, Returns->>=,
  if◌then◌else◌,
}
use routerd.TapMirror.State.{TapContext, Mirror, Nodes, Call, write, call_node, free, TapLinux}
use routerd.TapMirror.Taps.Find.{ContextOk}
use routerd.TapMirror.Contexts.{put, find_context, enable_tap_mirror}
use routerd.TapMirror.Contexts.WellFormed.{
  context_of, find_context_lem, load-set, set_twice, deref-load,
}
use routerd.TapMirror.Contexts.Enable.{with_tap, Enabled, enable_tap_mirror_lem}
use routerd.TapMirror.Nodes.{write_taps, redirector_round, tap_mirror_input_fn}
use routerd.TapMirror.Nodes.Redirect.{input_released}

-- The buffers freed, and the descriptors written to with a buffer, in order.
unfoldable pub freed : List Call → List ℕ
freed [] = []
freed (free bi ∷ cs) = bi ∷ freed cs
freed (_ ∷ cs) = freed cs

unfoldable pub written_to : List Call → List (ℤ × ℕ)
written_to [] = []
written_to (write fd bi ∷ cs) = (pos fd, bi) ∷ written_to cs
written_to (_ ∷ cs) = written_to cs

-- The positive descriptors, each with the buffer.
unfoldable pub positives : List ℤ → ℕ → List (ℤ × ℕ)
positives [] bi = []
positives (fd ∷ fds) bi = if is_positive fd then (fd, bi) ∷ positives fds bi else positives fds bi

write_taps_lem :
    (fds : List ℤ) (bi : ℕ)
    → (written_to (write_taps fds bi ++ free bi ∷ []) ≡ positives fds bi)
      × (freed (write_taps fds bi ++ free bi ∷ []) ≡ bi ∷ [])
unfolding write_taps written_to freed positives
write_taps_lem [] bi = (refl, refl)
write_taps_lem (pos zero ∷ fds) bi = write_taps_lem fds bi
write_taps_lem (pos (suc n) ∷ fds) bi =
    let (w, f) = write_taps_lem fds bi in (ap (λ l. (pos (suc n), bi) ∷ l) w, f)
write_taps_lem (negsuc n ∷ fds) bi = write_taps_lem fds bi

-- One round of the redirector for an event with at least one datum: where the context is still
-- there, the first buffer is written to every positive descriptor of the context, in order, and
-- freed once, and no other buffer of the event's data is written or freed; where the context was
-- freed meanwhile, a null pointer is followed.
pub redirector_round_lem :
    (xm : Mirror) (event_type bi : ℕ) (rest : List ℕ)
    → ((c : TapContext)
        → load xm.contexts event_type ≡ some (some c)
        → Returns
            (λ cs. (written_to cs ≡ positives c.tap_fds bi) × (freed cs ≡ bi ∷ []))
            (redirector_round xm (some event_type) (bi ∷ rest)))
      × (load xm.contexts event_type ≡ some none
          → redirector_round xm (some event_type) (bi ∷ rest) ≡ none)
unfolding redirector_round
redirector_round_lem xm event_type bi rest =
    ((λ c l. rw (deref-load xm event_type c l) (write_taps_lem c.tap_fds bi)), λ l. rw l refl)

module _ (nodes : Nodes) where
  -- A context that keeps its name is found as before.
  context_of-update :
      (cs : List (Option TapContext)) (name : List ℕ) (i j : ℕ) (c d : TapContext)
      → load cs j ≡ some (some c)
      → d.target_node_name ≡ c.target_node_name
      → context_of (set cs j (some d)) name i ≡ context_of cs name i
  context_of-update [] name i j c d l e = refl
  context_of-update (none ∷ cs) name i zero c d l e = cc l
  context_of-update (some b ∷ cs) name i zero c d l e = let same : b ≡ c = cc l in rw (e, same) refl
  context_of-update (none ∷ cs) name i (suc j) c d l e = context_of-update cs name (i + 1) j c d l e
  context_of-update (some b ∷ cs) name i (suc j) c d l e =
      rw (context_of-update cs name (i + 1) j c d l e) refl

  -- A tap that is enabled for a node whose context is asked to be freed, after a disabling and
  -- before the node's next frame, where no name in the contexts is shorter than the name it is
  -- compared with, is lost: the answer is 0, and the next frame takes the context with the tap away,
  -- gives the node the function that the context kept and is handed to it alone.
  pub enable_pending :
      (os : TapLinux) (clone_of : ℕ → Option ℕ) (xm : Mirror) (node tap pkts : List ℕ) (i rt : ℕ)
      (c : TapContext)
      → All (ContextOk (length node) (length tap)) xm.contexts
      → context_of xm.contexts node 0 ≡ some i
      → load xm.contexts i ≡ some (some c)
      → c.request_to_free ≡ true
      → nodes.node_name rt ≡ node
      → Returns
          (λ (r : ℤ × Mirror × List Call).
            (r.0 ≡ pos 0)
            × (r.1.contexts ≡ set xm.contexts i none)
            × (r.1.functions ≡ put xm.functions c.target_rt c.target_fn)
            × (r.2 ≡ call_node c.target_fn pkts ∷ []))
          (enable_tap_mirror nodes os xm node tap >>= λ e.
            tap_mirror_input_fn nodes clone_of e.1 rt pkts >>= λ d. some (e.0, d.0, d.1))
  enable_pending os clone_of xm node tap pkts i rt c p f l q nm =
      Returns->>= (Enabled nodes os xm node tap) _ _ _
        (enable_tap_mirror_lem nodes os xm node tap p)
        λ e w. elim w.2 [
          | inl m ↦ absurd (cc (m.3, f))
          | inr (inr (z, (i', rt', fd, g, _, _, _, _, _))) ↦ absurd (cc (g, f))
          | inr (inl (z, fns, (k, c', fd, g, l', ch, cs))) ↦
              let d = with_tap c fd tap in
              let ki : k ≡ i = cc (g, f) in
              let li : load xm.contexts i ≡ some (some c') =
                subst (λ m. load xm.contexts m ≡ some (some c')) ki l' in
              let same : c' ≡ c = cc (l, li) in
              let cs' : e.1.contexts ≡ set xm.contexts i (some d) = cs ∙ rw (ki, same) refl in
              let named : context_of e.1.contexts node 0 ≡ some i =
                rw cs' (context_of-update xm.contexts node 0 i c d l refl ∙ f) in
              let found : find_context e.1.contexts (nodes.node_name rt) 0 ≡ some (some i) =
                rw (nm, find_context_lem e.1.contexts node 0 (length tap) w.0, named) refl in
              let at : load e.1.contexts i ≡ some (some d) =
                rw cs' (load-set xm.contexts i (some d) (some c) l) in
              rw (input_released nodes clone_of e.1 rt i d pkts found at q) (
                z,
                rw cs' (set_twice xm.contexts i (some d) none),
                ap (λ g'. put g' c.target_rt c.target_fn) fns,
                refl,
              )
        ]
