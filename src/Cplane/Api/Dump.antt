-- ===== src/Cplane/Api/Dump.antt =====
-- What a client learns of the taps from `tap_inject_dump`.
use routerd.Prelude.{
  ℕ, ◌^◌, ◌<◌, ◌≡◌, ◌≢◌, ◌⊎◌, ◌↔◌, inl, inr, refl, sym, ◌∙◌, subst, List, [], ◌∷◌, some, htonl,
  htonl-htonl, invalid,
}
use routerd.Vppinfra.{Vppinfra, InPairs}
use routerd.Cplane.State.{Main}
use routerd.Cplane.TapTable.{fd_of, if_of, sw_of_if}
use routerd.Cplane.TapTable.Links.{IsLinked}
use routerd.Cplane.Api.{Details, dump_pairs, tap_inject_dump_handler}

-- A message of the list tells of the two indices, in the order of the host.
unfoldable pub Tells : ℕ → ℕ → List Details → Type 0
Tells sw kern [] = ⊥
Tells sw kern (d ∷ ds) =
    (htonl d.sw_if_index ≡ sw) × (htonl d.kernel_if_index ≡ kern) ⊎ Tells sw kern ds

-- The pairs are pairs of words.
abbrev pub Words : List (ℕ × ℕ) → Type 0
Words ps = (k v : ℕ) → InPairs k v ps → (k < 2 ^ 32) × (v < 2 ^ 32)

Tells-iff :
    (context sw kern : ℕ) (ps : List (ℕ × ℕ))
    → Words ps
    → Tells sw kern (dump_pairs context ps) ↔ InPairs kern sw ps
unfolding Tells dump_pairs
Tells-iff context sw kern [] w = ((λ h. h), (λ h. h))
Tells-iff context sw kern ((k, v) ∷ ps) w =
    let (hk, hv) = w k v (inl (refl, refl)) in
    let (to, from) = Tells-iff context sw kern ps (λ k' v' i. w k' v' (inr i)) in
    (
      (λ h. elim h [
        | inl x ↦ inl (sym (htonl-htonl k hk) ∙ x.1, sym (htonl-htonl v hv) ∙ x.0)
        | inr x ↦ inr (to x)
      ]),
      λ h. elim h [
        | inl x ↦ inl (htonl-htonl v hv ∙ x.1, htonl-htonl k hk ∙ x.0)
        | inr x ↦ inr (from x)
      ],
    )

-- Where the tables are linked and hold words, the handler of `tap_inject_dump` tells of an interface
-- and a kernel index just if the interface has a tap whose kernel index it is.
pub tap_inject_dump_iff :
    (V : Vppinfra) (im : Main V) (context sw kern : ℕ)
    → IsLinked V im
    → ((k v : ℕ) → sw_of_if V im k ≡ some v → (k < 2 ^ 32) × (v < 2 ^ 32))
    → Tells sw kern (tap_inject_dump_handler V im context)
      ↔ ((fd_of V im sw ≢ invalid) × (if_of V im sw ≡ kern))
unfolding tap_inject_dump_handler
tap_inject_dump_iff V im context sw kern l w =
    let ps = V.hash_pairs im.tap_if_index_to_sw_if_index in
    let words : Words ps = λ k v i. w k v ((V.pairs_iff im.tap_if_index_to_sw_if_index k v).0 i) in
    let (to, from) = Tells-iff context sw kern ps words in
    let (get, put) = V.pairs_iff im.tap_if_index_to_sw_if_index kern sw in
    (
      (λ h. l.kern kern sw (get (to h))),
      λ (m, e). from (put (subst (λ k. sw_of_if V im k ≡ some sw) e (l.mapped sw m).3)),
    )
