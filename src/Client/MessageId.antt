-- ===== src/Client/MessageId.antt =====
-- `find_msg_id` of src/vpp.c: the number of a message by its name, in VPP's table whose keys are names
-- followed by `_` and a checksum of eight digits.
use routerd.Prelude.{
  ℕ, ◌+◌, ◌%◌, ◌^◌, ◌≡◌, ◌⊎◌, refl, ap, ap₂, ◌∙◌, inl, inr, List, [], ◌∷◌, ◌++◌, Option, none, some,
  true, false, Bool-cases, ◌&&◌, ◌==◌, ==_iff, ==_refl, length, length-append, All, if◌then◌else◌,
  arith,
}
use routerd.Cplane.Connect.{starts_with}

-- The table as the list of its keys and values, in the order of the walk. The walk that finds nothing
-- leaves the function without a value: `none`.
unfoldable pub find_msg_id : List (List ℕ × ℕ) → List ℕ → Option ℕ
find_msg_id [] msg = none
find_msg_id ((key, value) ∷ table) msg =
    let rest = find_msg_id table msg in
    if length msg + 9 == length key && starts_with key msg then some (value % 2 ^ 32) else rest

-- The key is that of the message: its name and nine characters.
abbrev pub IsKeyOf : List ℕ → List ℕ → Type 0
IsKeyOf msg key = (crc : List ℕ) × (length crc ≡ 9) × (key ≡ msg ++ crc)

starts_with-append : (msg crc : List ℕ) → starts_with (msg ++ crc) msg ≡ true
unfolding starts_with
starts_with-append [] crc = refl
starts_with-append (c ∷ msg) crc = rw (==_refl c) (starts_with-append msg crc)

starts_with_rest :
    (key msg : List ℕ) → starts_with key msg ≡ true → (crc : List ℕ) × (key ≡ msg ++ crc)
unfolding starts_with
starts_with_rest key [] h = (key, refl)
starts_with_rest [] (d ∷ msg) h = cc h
starts_with_rest (c ∷ key) (d ∷ msg) h = elim (Bool-cases (c == d)) [
  | inl t ↦
      let (crc, e) = starts_with_rest key msg (simp t at h) in (crc, ap₂ ◌∷◌ ((==_iff c d).0 t) e)
  | inr f ↦ let no : false ≡ true = simp f at h in cc no
]

-- The walk takes a key just if it is that of the message.
key_taken :
    (msg key : List ℕ)
    → (((length msg + 9 == length key && starts_with key msg) ≡ true) × IsKeyOf msg key)
      ⊎ (((length msg + 9 == length key && starts_with key msg) ≡ false) × (¬ IsKeyOf msg key))
key_taken msg key = elim (Bool-cases (starts_with key msg)) [
  | inl t ↦
      let (crc, e) = starts_with_rest key msg t in
      let l : length key ≡ length msg + length crc = ap length e ∙ length-append msg crc in
      elim (Bool-cases (length msg + 9 == length key)) [
        | inl u ↦ inl (rw (t, u) refl, (crc, ground (arith, l, u), e))
        | inr u ↦ inr (
          rw (t, u) refl,
          λ (crc', m, e').
              let l' = ap length e' ∙ length-append msg crc' in ground (arith, l', m, u),
        )
      ]
  | inr f ↦ inr (
    elim (Bool-cases (length msg + 9 == length key)) [
      | inl u ↦ rw (f, u) refl
      | inr u ↦ rw (f, u) refl
    ],
    λ (crc, m, e).
        let t : starts_with key msg ≡ true = rw e (starts_with-append msg crc) in cc (f, t),
  )
]

-- `find_msg_id` gives the value at the first key that is the message's name and nine more characters,
-- as 32 bits, and comes to its end without a value just if there is no such key.
pub find_msg_id_lem :
    (table : List (List ℕ × ℕ)) (msg : List ℕ)
    → ((before : List (List ℕ × ℕ)) × (after : List (List ℕ × ℕ)) × (key : List ℕ) × (value : ℕ)
        × (table ≡ before ++ (key, value) ∷ after)
        × IsKeyOf msg key
        × All (λ p. ¬ IsKeyOf msg p.0) before
        × (find_msg_id table msg ≡ some (value % 2 ^ 32)))
      ⊎ All (λ p. ¬ IsKeyOf msg p.0) table × (find_msg_id table msg ≡ none)
unfolding find_msg_id
find_msg_id_lem [] msg = inr (tt, refl)
find_msg_id_lem ((key, value) ∷ table) msg = elim (key_taken msg key) [
  | inl (t, k) ↦ inl ([], table, key, value, refl, k, tt, rw t refl)
  | inr (f, n) ↦ elim (find_msg_id_lem table msg) [
    | inl (before, after, key', value', e, k, a, r) ↦ inl (
      (key, value) ∷ before,
      after,
      key',
      value',
      ap (λ l. (key, value) ∷ l) e,
      k,
      (n, a),
      rw f r,
    )
    | inr (a, r) ↦ inr ((n, a), rw f r)
  ]
]
