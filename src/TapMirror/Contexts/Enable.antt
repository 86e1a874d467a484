-- ===== src/TapMirror/Contexts/Enable.antt =====
-- `enable_tap_mirror` of tap_mirror.c on all its branches.
use routerd.Prelude.{
  ◌≢◌, length, replicate, false, ℕ, ◌≡◌, ◌⊎◌, refl, ap, ◌∙◌, subst, List, [], ◌∷◌, ◌++◌, none, some,
  true, Option-cases, inl, inr, ℤ, pos, negsuc, load, set, has_bit, set_bit, All, Returns,
  Returns->>=, arith,
}
use routerd.TapMirror.State.{
  TapContext, Mirror, mirror_enabled, tap_mirror_is_enabled, Nodes, Call, TapLinux,
}
use routerd.TapMirror.Taps.Find.{ContextOk, all_matching}
use routerd.TapMirror.Contexts.{
  put, free_slot, new_context, tap_mirror_context_add_new_tap, add_tap_to, enable_tap_mirror,
}
use routerd.TapMirror.Contexts.WellFormed.{
  context_of, All-set, All-load, load-set, set_twice, deref-load, Paired-snoc,
  new_context-ContextOk, context_of-some, free_slot-some, free_slot-none, matching-new_context,
  all_matching-set_empty,
}
use routerd.TapMirror.Taps.Open.{Chosen, get_or_open_tapfd-Chosen}
use routerd.TapMirror.Contexts.GetOrNew.{got_old, got_none, got_new}

-- A context with one more tap.
abbrev pub with_tap : TapContext → ℤ → List ℕ → TapContext
with_tap c fd name = record c {
  tap_fds = c.tap_fds ++ fd ∷ [];
  tap_names = c.tap_names ++ some name ∷ [];
}

-- The tap that was added to context i.
abbrev pub Added : TapLinux → Mirror → ℕ → TapContext → List ℕ → Mirror × List Call → Type 0
Added os xm i c name r =
    (fd : ℤ) × Chosen os (all_matching xm.contexts name) fd
    × (r.0 ≡ record xm { contexts = set xm.contexts i (some (with_tap c fd name)) })

add_new_tap-Added :
    (os : TapLinux) (xm : Mirror) (i k : ℕ) (c : TapContext) (name : List ℕ)
    → All (ContextOk k (length name)) xm.contexts
    → load xm.contexts i ≡ some (some c)
    → Returns (Added os xm i c name) (tap_mirror_context_add_new_tap os xm i name)
unfolding tap_mirror_context_add_new_tap
add_new_tap-Added os xm i k c name p e =
    Returns->>= (λ r. Chosen os (all_matching xm.contexts name) r.0) _ _ _
      (get_or_open_tapfd-Chosen os xm name k p) λ r w. rw (deref-load xm i c e) (r.0, w, refl)

-- No context could be made: there is none for the node, and no slot is free or VPP has no node of
-- that name.
abbrev pub CreateMiss : Nodes → Mirror → List ℕ → ℤ × Mirror × List Call → Type 0
CreateMiss nodes xm node r =
    (r.0 ≡ negsuc 0)
    × (r.1.contexts ≡ xm.contexts)
    × (r.1.functions ≡ xm.functions)
    × (context_of xm.contexts node 0 ≡ none)
    × (All (λ c. c ≢ none) xm.contexts ⊎ (nodes.node_runtime node ≡ none))

-- The tap was added to the context that the node has.
abbrev pub AddedToOld : TapLinux → Mirror → List ℕ → List ℕ → ℤ × Mirror × List Call → Type 0
AddedToOld os xm node tap r =
    (r.0 ≡ pos 0)
    × (r.1.functions ≡ xm.functions)
    × ((i : ℕ) × (c : TapContext) × (fd : ℤ) × (context_of xm.contexts node 0 ≡ some i)
        × (load xm.contexts i ≡ some (some c))
        × Chosen os (all_matching xm.contexts tap) fd
        × (r.1.contexts ≡ set xm.contexts i (some (with_tap c fd tap))))

-- A context with the tap was made in a free slot, and the node's function was replaced.
abbrev pub AddedToNew :
    Nodes → TapLinux → Mirror → List ℕ → List ℕ → ℤ × Mirror × List Call → Type 0
AddedToNew nodes os xm node tap r =
    (r.0 ≡ pos 0)
    × ((i : ℕ) × (rt : ℕ) × (fd : ℤ) × (context_of xm.contexts node 0 ≡ none)
        × (load xm.contexts i ≡ some none)
        × (nodes.node_runtime node ≡ some rt)
        × Chosen os (all_matching xm.contexts tap) fd
        × (r.1.functions ≡ put xm.functions rt nodes.tap_mirror_input)
        × (r.1.contexts
            ≡ set xm.contexts i (
                some (record {
                  target_node_name = node;
                  tap_fds = replicate 9 (pos 0) ++ fd ∷ [];
                  tap_names = replicate 9 none ++ some tap ∷ [];
                  target_fn = xm.functions rt;
                  target_rt = rt;
                  redirector_node_index = nodes.redirector;
                  request_to_free = false;
                }))))

abbrev pub Enabled : Nodes → TapLinux → Mirror → List ℕ → List ℕ → ℤ × Mirror × List Call → Type 0
Enabled nodes os xm node tap r =
    All (ContextOk (length node) (length tap)) r.1.contexts
    × (tap_mirror_is_enabled r.1 ≡ true)
    × (CreateMiss nodes xm node r ⊎ AddedToOld os xm node tap r ⊎ AddedToNew nodes os xm node tap r)

pub enable_tap_mirror_lem :
    (nodes : Nodes) (os : TapLinux) (xm : Mirror) (node tap : List ℕ)
    → All (ContextOk (length node) (length tap)) xm.contexts
    → Returns (Enabled nodes os xm node tap) (enable_tap_mirror nodes os xm node tap)
unfolding enable_tap_mirror add_tap_to
enable_tap_mirror_lem nodes os xm node tap p =
    let flag : has_bit (set_bit xm.flags mirror_enabled) mirror_enabled ≡ true = ground arith in
    let flagged = record xm { flags = set_bit xm.flags mirror_enabled } in
    elim (Option-cases (context_of xm.contexts node 0)) [
      | inr (i, e) ↦
          let (j, c, q, l, s) = context_of-some xm.contexts node 0 i e in
          let at : load xm.contexts i ≡ some (some c) =
            let same : i ≡ j = omega (arith, q) in rw same l in
          rw (got_old nodes flagged node (length tap) p i e) (
            Returns->>= (Added os flagged i c tap) _ _ _
              (add_new_tap-Added os flagged i (length node) c tap p at)
              λ r w.
                let (fd, ch, eq) = w in
                let was =
                  All-load (ContextOk (length node) (length tap)) xm.contexts i (some c) p at in
                let ok : ContextOk (length node) (length tap) (some (with_tap c fd tap)) = (
                  was.0,
                  Paired-snoc (length tap) c.tap_fds c.tap_names fd tap (omega arith) was.1,
                ) in
                (
                  rw eq (
                      All-set (ContextOk (length node) (length tap)) xm.contexts i
                        (some (with_tap c fd tap)) p ok),
                  rw eq flag,
                  inr (
                      inl (
                        refl,
                        ap (λ x. x.functions) eq,
                        (i, c, fd, e, at, ch, ap (λ x. x.contexts) eq),
                      )),
                ))
      | inl e ↦ elim (Option-cases (free_slot xm.contexts 0)) [
        | inl f ↦
            rw (got_none nodes flagged node (length tap) p e (inl f))
              (p, flag, inl (refl, refl, refl, e, inl (free_slot-none xm.contexts 0 f)))
        | inr (i, f) ↦
            let (j, q, l) = free_slot-some xm.contexts 0 i f in
            let at : load xm.contexts i ≡ some none =
              let same : i ≡ j = omega (arith, q) in rw same l in
            elim (Option-cases (nodes.node_runtime node)) [
              | inl n ↦
                  rw (got_none nodes flagged node (length tap) p e (inr n))
                    (p, flag, inl (refl, refl, refl, e, inr n))
              | inr (rt, n) ↦ rw (got_new nodes flagged node (length tap) p i rt e f n) (
                  let d = new_context nodes node rt (xm.functions rt) in
                  let made = record flagged {
                    contexts = set xm.contexts i (some d);
                    functions = put xm.functions rt nodes.tap_mirror_input;
                  } in
                  let p' = All-set (ContextOk (length node) (length tap)) xm.contexts i (some d) p (
                    new_context-ContextOk nodes node rt (xm.functions rt) (length node) (length tap)
                      (omega arith)) in
                  let at' = load-set xm.contexts i (some d) none at in
                  Returns->>= (Added os made i d tap) _ _ _
                    (add_new_tap-Added os made i (length node) d tap p' at')
                    λ r w.
                      let (fd, ch, eq) = w in
                      let was =
                        (new_context-ContextOk nodes node rt (xm.functions rt) (length node)
                          (length tap) (omega arith)) in
                      let ok : ContextOk (length node) (length tap) (some (with_tap d fd tap)) = (
                        was.0,
                        Paired-snoc (length tap) d.tap_fds d.tap_names fd tap (omega arith) was.1,
                      ) in
                      (
                        rw eq (
                            All-set (ContextOk (length node) (length tap)) made.contexts i
                              (some (with_tap d fd tap)) p' ok),
                        rw eq flag,
                        inr (
                            inr (
                              refl,
                              (
                                i,
                                rt,
                                fd,
                                e,
                                at,
                                n,
                                subst (λ zs. Chosen os zs fd)
                                    (all_matching-set_empty xm.contexts tap i d
                                      (matching-new_context nodes node rt (xm.functions rt) tap) at)
                                    ch,
                                ap (λ x. x.functions) eq,
                                ap (λ x. x.contexts) eq ∙ set_twice xm.contexts i _ _,
                              ),
                            )),
                      ))
            ]
      ]
    ]
