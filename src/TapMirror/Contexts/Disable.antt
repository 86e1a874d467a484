-- ===== src/TapMirror/Contexts/Disable.antt =====
-- `disable_tap_mirror` of tap_mirror.c on all its branches.
use routerd.Prelude.{
  ◌≤◌, ℕ, zero, suc, ◌+◌, ◌≡◌, ◌≢◌, ◌⊎◌, refl, sym, ap, ap₂, ◌∙◌, subst, List, [], ◌∷◌, ◌++◌,
  Option, none, some, ◌>>=◌, true, false, Bool-cases, Option-cases, inl, inr, ◌==◌, ==_iff, ℤ, pos,
  negsuc, is_positive, is_negative, length, load, set, All, Returns, Returns->>=, if◌then◌else◌,
  arith,
}
use routerd.TapMirror.State.{TapContext, Mirror, Call, print_not_found}
use routerd.TapMirror.Taps.{get_tapfd}
use routerd.TapMirror.Taps.Find.{Paired, ContextOk, matching, all_matching, get_tapfd_lem}
use routerd.TapMirror.Contexts.{close_fd, count_taps, get_tap_mirror_context, disable_tap_mirror}
use routerd.TapMirror.Contexts.WellFormed.{
  context_of, find_context_lem, All-set, All-load, context_of-some,
}
use routerd.TapMirror.Contexts.TakeOut.{others, last_or, TakenOut, take_out-TakenOut}

-- The node has no context.
abbrev pub NotFound : Mirror → List ℕ → Mirror × List Call → Type 0
NotFound xm node r = (context_of xm.contexts node 0 ≡ none) × (r ≡ (xm, print_not_found ∷ []))

-- Context i has no tap of that name any more and has the others as before, and is to be freed just
-- if it has no tap at all. The descriptor is closed just if no context has a tap of that name.
abbrev pub Removed : Mirror → List ℕ → List ℕ → Mirror × List Call → Type 0
Removed xm node tap r =
    (i : ℕ) × (c : TapContext) × (d : TapContext) × (context_of xm.contexts node 0 ≡ some i)
    × (load xm.contexts i ≡ some (some c))
    × (r.0.contexts ≡ set xm.contexts i (some d))
    × (matching d.tap_fds d.tap_names tap ≡ [])
    × (count_taps d.tap_fds + length (matching c.tap_fds c.tap_names tap) ≡ count_taps c.tap_fds)
    × (others d.tap_fds d.tap_names tap ≡ others c.tap_fds c.tap_names tap)
    × (d.target_node_name ≡ c.target_node_name)
    × (d.target_fn ≡ c.target_fn)
    × (d.target_rt ≡ c.target_rt)
    × ((count_taps d.tap_fds ≡ 0 → d.request_to_free ≡ true)
        × (count_taps d.tap_fds ≢ 0 → d.request_to_free ≡ c.request_to_free))
    × ((all_matching r.0.contexts tap ≡ [])
          × (r.1 ≡ close_fd (last_or (matching c.tap_fds c.tap_names tap) (pos 0)))
        ⊎ (all_matching r.0.contexts tap ≢ []) × (r.1 ≡ []))

abbrev pub Disabled : Mirror → List ℕ → List ℕ → Mirror × List Call → Type 0
Disabled xm node tap r =
    All (ContextOk (length node) (length tap)) r.0.contexts
    × (r.0.functions ≡ xm.functions)
    × (NotFound xm node r ⊎ Removed xm node tap r)

all_matching_same :
    (cs : List (Option TapContext)) (i : ℕ) (c d : TapContext) (tap : List ℕ)
    → matching c.tap_fds c.tap_names tap ≡ matching d.tap_fds d.tap_names tap
    → all_matching (set cs i (some c)) tap ≡ all_matching (set cs i (some d)) tap
unfolding all_matching
all_matching_same [] i c d tap e = refl
all_matching_same (b ∷ cs) zero c d tap e = ap (λ l. l ++ all_matching cs tap) e
all_matching_same (none ∷ cs) (suc i) c d tap e = all_matching_same cs i c d tap e
all_matching_same (some b ∷ cs) (suc i) c d tap e =
    ap (λ l. matching b.tap_fds b.tap_names tap ++ l) (all_matching_same cs i c d tap e)

-- A context that is to be freed if it has no tap.
abbrev asked : TapContext → TapContext
asked out = if count_taps out.tap_fds == 0 then record out { request_to_free = true } else out

asked_lem :
    (out : TapContext)
    → ((asked out).tap_fds ≡ out.tap_fds)
      × ((asked out).tap_names ≡ out.tap_names)
      × ((asked out).target_node_name ≡ out.target_node_name)
      × ((asked out).target_fn ≡ out.target_fn)
      × ((asked out).target_rt ≡ out.target_rt)
      × (count_taps out.tap_fds ≡ 0 → (asked out).request_to_free ≡ true)
      × (count_taps out.tap_fds ≢ 0 → (asked out).request_to_free ≡ out.request_to_free)
asked_lem out = elim (Bool-cases (count_taps out.tap_fds == 0)) [
  | inl t ↦ rw t (refl, refl, refl, refl, refl, (λ _. refl), λ n. absurd (n ((==_iff _ _).0 t)))
  | inr f ↦ rw f (refl, refl, refl, refl, refl, (λ z. ground (arith, z, f)), λ _. refl)
]

removed :
    (xm : Mirror) (node tap : List ℕ) (i : ℕ) (c out : TapContext) (z : ℤ) (es : List Call)
    → All (ContextOk (length node) (length tap)) xm.contexts
    → context_of xm.contexts node 0 ≡ some i
    → load xm.contexts i ≡ some (some c)
    → (out.target_node_name ≡ c.target_node_name)
      × (out.target_fn ≡ c.target_fn)
      × (out.target_rt ≡ c.target_rt)
      × (out.request_to_free ≡ c.request_to_free)
    → length node ≤ length c.target_node_name
    → TakenOut c.tap_fds c.tap_names tap (pos 0) (z, out.tap_fds, out.tap_names)
    → (all_matching (set xm.contexts i (some out)) tap ≡ []) × (es ≡ close_fd z)
      ⊎ (all_matching (set xm.contexts i (some out)) tap ≢ []) × (es ≡ [])
    → Disabled xm node tap (record xm { contexts = set xm.contexts i (some (asked out)) }, es)
removed xm node tap i c out z es p e l k b w h =
    let a = asked_lem out in
    let same_taps : matching (asked out).tap_fds (asked out).tap_names tap
        ≡ matching out.tap_fds out.tap_names tap =
      ap₂ (λ x y. matching x y tap) a.0 a.1 in
    let same = all_matching_same xm.contexts i (asked out) out tap same_taps in
    let ok : ContextOk (length node) (length tap) (some (asked out)) = (
      subst (λ x. length node ≤ length x) (sym (a.2 ∙ k.0)) b,
      subst (λ x. Paired (length tap) x (asked out).tap_names) (sym a.0)
          (subst (Paired (length tap) out.tap_fds) (sym a.1) w.1),
    ) in
    (
      All-set (ContextOk (length node) (length tap)) xm.contexts i (some (asked out)) p ok,
      refl,
      inr (
        i,
        c,
        asked out,
        e,
        l,
        refl,
        same_taps ∙ w.2,
        ap (λ x. count_taps x + length (matching c.tap_fds c.tap_names tap)) a.0 ∙ w.3,
        ap₂ (λ x y. others x y tap) a.0 a.1 ∙ w.4,
        a.2 ∙ k.0,
        a.3 ∙ k.1,
        a.4 ∙ k.2,
        ((λ n. a.5 (sym (ap count_taps a.0) ∙ n)), λ n. a.6 (λ q. n (ap count_taps a.0 ∙ q)) ∙ k.3),
        elim h [
          | inl x ↦ inl (same ∙ x.0, x.1 ∙ ap close_fd w.0)
          | inr x ↦ inr ((λ q. x.0 (sym same ∙ q)), x.1)
        ],
      ),
    )

negative : (fd : ℤ) → is_positive fd ≡ true → is_negative fd ≡ false
negative (pos n) q = refl
negative (negsuc n) q = cc q

-- What `disable_tap_mirror` does after taking the tap out of context i.
finish :
    (xm : Mirror) (node tap : List ℕ) (i : ℕ) (c out : TapContext) (z : ℤ)
    → All (ContextOk (length node) (length tap)) xm.contexts
    → context_of xm.contexts node 0 ≡ some i
    → load xm.contexts i ≡ some (some c)
    → (out.target_node_name ≡ c.target_node_name)
      × (out.target_fn ≡ c.target_fn)
      × (out.target_rt ≡ c.target_rt)
      × (out.request_to_free ≡ c.request_to_free)
    → length node ≤ length c.target_node_name
    → TakenOut c.tap_fds c.tap_names tap (pos 0) (z, out.tap_fds, out.tap_names)
    → Returns (Disabled xm node tap) (
        get_tapfd (record xm { contexts = set xm.contexts i (some out) }) tap >>= λ exist_fd. some (
          record xm { contexts = set xm.contexts i (some (asked out)) },
          if is_negative exist_fd then close_fd z else [],
        ))
finish xm node tap i c out z p e l k b w =
    let xm' = record xm { contexts = set xm.contexts i (some out) } in
    let ok =
      All-set (ContextOk (length node) (length tap)) xm.contexts i (some out) p
        (subst (λ x. length node ≤ length x) (sym k.0) b, w.1) in
    elim (get_tapfd_lem xm' tap (length node) ok) [
      | inl (g, m) ↦ rw g (removed xm node tap i c out z (close_fd z) p e l k b w (inl (m, refl)))
      | inr (fd, fds, g, m, q) ↦
          rw (g, negative fd q)
            (removed xm node tap i c out z [] p e l k b w (inr ((λ n. cc (m, n)), refl)))
    ]

pub disable_tap_mirror_lem :
    (xm : Mirror) (node tap : List ℕ)
    → All (ContextOk (length node) (length tap)) xm.contexts
    → Returns (Disabled xm node tap) (disable_tap_mirror xm node tap)
unfolding disable_tap_mirror get_tap_mirror_context
disable_tap_mirror_lem xm node tap p =
    let known = find_context_lem xm.contexts node 0 (length tap) p in
    elim (Option-cases (context_of xm.contexts node 0)) [
      | inl e ↦ rw (disable_tap_mirror, get_tap_mirror_context, known, e) (p, refl, inl (e, refl))
      | inr (i, e) ↦
          let (j, c, q, l, s) = context_of-some xm.contexts node 0 i e in
          let at : load xm.contexts i ≡ some (some c) =
            let same : i ≡ j = omega (arith, q) in rw same l in
          let ok = All-load (ContextOk (length node) (length tap)) xm.contexts i (some c) p at in
          rw (disable_tap_mirror, get_tap_mirror_context, known, e, at)
            (Returns->>= (TakenOut c.tap_fds c.tap_names tap (pos 0)) _ _ _
              (take_out-TakenOut c.tap_fds c.tap_names tap (pos 0) ok.1)
              λ r w.
                finish xm node tap i c (record c { tap_fds = r.1; tap_names = r.2 }) r.0 p e at
                  (refl, refl, refl, refl) ok.0 w)
    ]
