-- ===== src/TapMirror/Contexts/WellFormed.antt =====
-- The vector of contexts of tap_mirror.c: setting and finding a slot.
use routerd.Prelude.{
  ◌≤◌, length, if◌then◌else◌, Bool-cases, ℕ, zero, suc, ◌+◌, ◌≡◌, ◌≢◌, refl, sym, ap, ◌∙◌, subst,
  List, [], ◌∷◌, ◌++◌, append-nil, append_nil, if_false, Option, none, some, true, inl, inr, ℤ, pos,
  is_positive, load, set, All, arith,
}
use routerd.TapMirror.State.{TapContext, Mirror, Nodes}
use routerd.TapMirror.Taps.Find.{begins, same_bytes_lem, Paired, ContextOk, matching, all_matching}
use routerd.TapMirror.Contexts.{deref, put, find_context, free_slot, new_context}

module _ {A : Type 0} where
  pub All-set : (P : A → Type 0) (xs : List A) (i : ℕ) (x : A) → All P xs → P x → All P (set xs i x)
  All-set P [] i x p q = tt
  All-set P (y ∷ xs) zero x p q = (q, p.1)
  All-set P (y ∷ xs) (suc i) x p q = (p.0, All-set P xs i x p.1 q)

  pub All-load :
      (P : A → Type 0) (xs : List A) (i : ℕ) (x : A) → All P xs → load xs i ≡ some x → P x
  All-load P [] i x p e = absurd (none≢some e)
    where
      none≢some : (none ≡ some x) → ⊥
      none≢some e' = cc e'
  All-load P (y ∷ xs) zero x p e = let same : y ≡ x = cc e in subst P same p.0
  All-load P (y ∷ xs) (suc i) x p e = All-load P xs i x p.1 e

  pub load-set : (xs : List A) (i : ℕ) (x y : A) → load xs i ≡ some y → load (set xs i x) i ≡ some x
  load-set [] i x y e = absurd (no e)
    where
      no : (none ≡ some y) → ⊥
      no e' = cc e'
  load-set (z ∷ xs) zero x y e = refl
  load-set (z ∷ xs) (suc i) x y e = load-set xs i x y e

  pub set_twice : (xs : List A) (i : ℕ) (x y : A) → set (set xs i x) i y ≡ set xs i y
  set_twice [] i x y = refl
  set_twice (z ∷ xs) zero x y = refl
  set_twice (z ∷ xs) (suc i) x y = ap (λ l. z ∷ l) (set_twice xs i x y)

  pub set-load : (xs : List A) (i : ℕ) (x : A) → load xs i ≡ some x → set xs i x ≡ xs
  set-load [] i x e = refl
  set-load (z ∷ xs) zero x e = let same : z ≡ x = cc e in ap (λ w. w ∷ xs) (sym same)
  set-load (z ∷ xs) (suc i) x e = ap (λ l. z ∷ l) (set-load xs i x e)

pub deref-load :
    (xm : Mirror) (i : ℕ) (c : TapContext)
    → load xm.contexts i ≡ some (some c)
    → deref xm i ≡ some c
deref-load xm i c e = rw e refl

-- Putting a function over another's, and the old one back.
pub put_back : (f : ℕ → ℕ) (rt x j : ℕ) → put (put f rt x) rt (f rt) j ≡ f j
put_back f rt x j = ground (arith, ap f)

pub Paired-snoc :
    (m : ℕ) (fds : List ℤ) (names : List (Option (List ℕ))) (fd : ℤ) (v : List ℕ)
    → m ≤ length v
    → Paired m fds names
    → Paired m (fds ++ fd ∷ []) (names ++ some v ∷ [])
Paired-snoc m [] [] fd v h p = ((λ _. h), tt)
Paired-snoc m [] (n ∷ names) fd v h p = absurd p
Paired-snoc m (f ∷ fds) [] fd v h p = absurd p
Paired-snoc m (f ∷ fds) (n ∷ names) fd v h p = (p.0, Paired-snoc m fds names fd v h p.1)

pub new_context-ContextOk :
    (nodes : Nodes) (name : List ℕ) (rt fn k m : ℕ)
    → k ≤ length name
    → ContextOk k m (some (new_context nodes name rt fn))
new_context-ContextOk nodes name rt fn k m h =
    let no : (is_positive (pos 0) ≡ true → ⊥) = λ e. cc e in
    (h, (no, (no, (no, (no, (no, (no, (no, (no, (no, tt))))))))))

-- The first context, from index i on, whose node's name begins with the name.
abbrev pub context_of : List (Option TapContext) → List ℕ → ℕ → Option ℕ
context_of [] name i = none
context_of (none ∷ cs) name i = context_of cs name (i + 1)
context_of (some c ∷ cs) name i =
    let rest = context_of cs name (i + 1) in if begins c.target_node_name name then some i else rest

pub find_context_lem :
    (cs : List (Option TapContext)) (name : List ℕ) (i m : ℕ)
    → All (ContextOk (length name) m) cs
    → find_context cs name i ≡ some (context_of cs name i)
unfolding find_context
find_context_lem [] name i m p = refl
find_context_lem (none ∷ cs) name i m p = find_context_lem cs name (i + 1) m p.1
find_context_lem (some c ∷ cs) name i m p =
    rw (same_bytes_lem c.target_node_name name p.0.0)
      (elim (Bool-cases (begins c.target_node_name name)) [
        | inl t ↦ rw t refl
        | inr f ↦ rw f (find_context_lem cs name (i + 1) m p.1)
      ])

-- A context that a search finds.
pub context_of-some :
    (cs : List (Option TapContext)) (name : List ℕ) (i k : ℕ)
    → context_of cs name i ≡ some k
    → (j : ℕ) × (c : TapContext) × (k ≡ i + j)
      × (load cs j ≡ some (some c))
      × (begins c.target_node_name name ≡ true)
context_of-some [] name i k e = cc e
context_of-some (none ∷ cs) name i k e =
    let (j, c, p, l, s) = context_of-some cs name (i + 1) k e in (suc j, c, omega (arith, p), l, s)
context_of-some (some c ∷ cs) name i k e = elim (Bool-cases (begins c.target_node_name name)) [
  | inl t ↦ (zero, c, let same : i ≡ k = cc (e, t) in omega (arith, same), refl, t)
  | inr f ↦
      let (j, d, p, l, s) = context_of-some cs name (i + 1) k (sym (if_false _ _ _ f) ∙ e) in
      (suc j, d, omega (arith, p), l, s)
]

pub free_slot-some :
    (cs : List (Option TapContext)) (i k : ℕ)
    → free_slot cs i ≡ some k
    → (j : ℕ) × (k ≡ i + j) × (load cs j ≡ some none)
unfolding free_slot
free_slot-some [] i k e = cc e
free_slot-some (none ∷ cs) i k e = let same : i ≡ k = cc e in (zero, omega (arith, same), refl)
free_slot-some (some c ∷ cs) i k e =
    let (j, p, l) = free_slot-some cs (i + 1) k e in (suc j, omega (arith, p), l)

-- Where none is found, every slot has a context.
pub free_slot-none :
    (cs : List (Option TapContext)) (i : ℕ) → free_slot cs i ≡ none → All (λ c. c ≢ none) cs
unfolding free_slot
free_slot-none [] i e = tt
free_slot-none (none ∷ cs) i e = cc e
free_slot-none (some c ∷ cs) i e = ((λ n. cc n), free_slot-none cs (i + 1) e)

-- A new context in an empty slot is found by its name, where no other was.
pub context_of-set :
    (cs : List (Option TapContext)) (name : List ℕ) (i j : ℕ) (c : TapContext)
    → context_of cs name i ≡ none
    → load cs j ≡ some none
    → begins c.target_node_name name ≡ true
    → context_of (set cs j (some c)) name i ≡ some (i + j)
context_of-set [] name i j c f e s = cc e
context_of-set (none ∷ cs) name i zero c f e s =
    let same : i + 0 ≡ i = omega arith in rw (s, same) refl
context_of-set (some d ∷ cs) name i zero c f e s = cc e
context_of-set (none ∷ cs) name i (suc j) c f e s =
    let same : i + suc j ≡ i + 1 + j = omega arith in
    rw same (context_of-set cs name (i + 1) j c f e s)
context_of-set (some d ∷ cs) name i (suc j) c f e s =
    let same : i + suc j ≡ i + 1 + j = omega arith in
    elim (Bool-cases (begins d.target_node_name name)) [
      | inl t ↦ cc (f, t)
      | inr t ↦ rw (t, same) (context_of-set cs name (i + 1) j c (sym (if_false _ _ _ t) ∙ f) e s)
    ]

pub all_matching-set :
    (cs : List (Option TapContext)) (name : List ℕ) (j : ℕ) (c : TapContext)
    → all_matching cs name ≡ []
    → load cs j ≡ some none
    → all_matching (set cs j (some c)) name ≡ matching c.tap_fds c.tap_names name
unfolding all_matching
all_matching-set [] name j c f e = cc e
all_matching-set (none ∷ cs) name zero c f e = rw f (append-nil _)
all_matching-set (some d ∷ cs) name zero c f e = cc e
all_matching-set (none ∷ cs) name (suc j) c f e = all_matching-set cs name j c f e
all_matching-set (some d ∷ cs) name (suc j) c f e =
    let (x, y) = append_nil (matching d.tap_fds d.tap_names name) _ f in
    rw x (all_matching-set cs name j c y e)

-- A new context has no tap.
pub matching-new_context :
    (nodes : Nodes) (node : List ℕ) (rt fn : ℕ) (name : List ℕ)
    → let c = new_context nodes node rt fn in matching c.tap_fds c.tap_names name ≡ []
unfolding matching
matching-new_context nodes node rt fn name = refl

pub all_matching-set_empty :
    (cs : List (Option TapContext)) (name : List ℕ) (j : ℕ) (c : TapContext)
    → matching c.tap_fds c.tap_names name ≡ []
    → load cs j ≡ some none
    → all_matching (set cs j (some c)) name ≡ all_matching cs name
unfolding all_matching
all_matching-set_empty [] name j c m e = refl
all_matching-set_empty (none ∷ cs) name zero c m e = rw m refl
all_matching-set_empty (some d ∷ cs) name zero c m e = cc e
all_matching-set_empty (none ∷ cs) name (suc j) c m e = all_matching-set_empty cs name j c m e
all_matching-set_empty (some d ∷ cs) name (suc j) c m e =
    ap (λ l. matching d.tap_fds d.tap_names name ++ l) (all_matching-set_empty cs name j c m e)
