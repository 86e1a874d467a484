-- ===== src/TapMirror/Cli/History.antt =====
-- Any sequence of `set tap-mirror` lines, from the state that `tap_mirror_init` leaves.
use routerd.Prelude.{
  length, ◌≡◌, sym, subst, ℕ, List, [], ◌∷◌, Option, none, some, ◌>>=◌, Bool, true, false,
  Option-cases, inl, inr, All, Returns, Returns->>=,
}
use routerd.TapMirror.State.{Mirror, Nodes, Call, TapLinux}
use routerd.TapMirror.Taps.Find.{ContextOk}
use routerd.TapMirror.Contexts.Enable.{Enabled, enable_tap_mirror_lem}
use routerd.TapMirror.Contexts.Disable.{Disabled, disable_tap_mirror_lem}
use routerd.TapMirror.Nodes.{tap_mirror_init}
use routerd.TapMirror.Cli.{
  MirrorWord, node, tap, reset, other, MirrorLine, read_words, MirrorError, set_tap_mirror,
  set_tap_mirror_fn,
}

-- A sequence of lines, each with Linux's answers.
pub run_lines : Nodes → List (TapLinux × List MirrorWord) → Mirror → Option Mirror
run_lines nodes [] xm = some xm
run_lines nodes ((os, ws) ∷ rest) xm =
    set_tap_mirror_fn nodes os xm ws >>= λ r. run_lines nodes rest r.1

-- The names of a line: k bytes for a node, m for a tap.
abbrev pub WordOk : ℕ → ℕ → MirrorWord → Type 0
WordOk k m (node s) = length s ≡ k
WordOk k m (tap s) = length s ≡ m
WordOk k m reset = Unit {0}
WordOk k m other = Unit {0}

-- The names in the contexts have k bytes at least for nodes, m for taps, and every positive
-- descriptor has one.
abbrev pub Ok : ℕ → ℕ → Mirror → Type 0
Ok k m xm = All (ContextOk k m) xm.contexts

abbrev no_words : MirrorLine
no_words = record { node_name = none; tap_name = none; is_reset = false }

module _ (nodes : Nodes) where
  set_tap_mirror-Ok :
      (k m : ℕ) (os : TapLinux) (xm : Mirror) (n t : List ℕ) (b : Bool)
      → length n ≡ k
      → length t ≡ m
      → Ok k m xm
      → Returns (λ r. Ok k m r.1) (set_tap_mirror nodes os xm n t b)
  unfolding set_tap_mirror
  set_tap_mirror-Ok k m os xm n t b hk hm p = of_lengths b
    where
      ok : Ok (length n) (length t) xm
      ok = subst (λ i. Ok i (length t) xm) (sym hk) (subst (λ i. Ok k i xm) (sym hm) p)

      back : (xm' : Mirror) → Ok (length n) (length t) xm' → Ok k m xm'
      back xm' q = subst (λ i. Ok k i xm') hm (subst (λ i. Ok i (length t) xm') hk q)

      of_lengths : (b' : Bool) → Returns (λ r. Ok k m r.1) (set_tap_mirror nodes os xm n t b')
      of_lengths true =
          Returns->>= (Disabled xm n t) _ _ _ (disable_tap_mirror_lem xm n t ok) λ r w. back r.0 w.0
      of_lengths false =
          Returns->>= (Enabled nodes os xm n t) _ _ _ (enable_tap_mirror_lem nodes os xm n t ok)
            λ r w. back r.1 w.0

  -- A line that `read_words` accepts gives names of those lengths.
  abbrev LineOk : ℕ → ℕ → MirrorLine → Type 0
  LineOk k m l =
      ((n : List ℕ) → l.node_name ≡ some n → length n ≡ k)
      × ((t : List ℕ) → l.tap_name ≡ some t → length t ≡ m)

  read_words-LineOk :
      (k m : ℕ) (ws : List MirrorWord) (l l' : MirrorLine)
      → All (WordOk k m) ws
      → LineOk k m l
      → read_words ws l ≡ some l'
      → LineOk k m l'
  unfolding read_words
  read_words-LineOk k m [] l l' a o e = let same : l ≡ l' = cc e in subst (LineOk k m) same o
  read_words-LineOk k m (node s ∷ ws) l l' a o e =
      read_words-LineOk k m ws (record l { node_name = some s }) l' a.1
        ((λ n q. let same : s ≡ n = cc q in subst (λ v. length v ≡ k) same a.0), o.1) e
  read_words-LineOk k m (tap s ∷ ws) l l' a o e =
      read_words-LineOk k m ws (record l { tap_name = some s }) l' a.1
        (o.0, λ t q. let same : s ≡ t = cc q in subst (λ v. length v ≡ m) same a.0) e
  read_words-LineOk k m (reset ∷ ws) l l' a o e =
      read_words-LineOk k m ws (record l { is_reset = true }) l' a.1 o e
  read_words-LineOk k m (other ∷ ws) l l' a o e = cc e

  set_tap_mirror_fn-Ok :
      (k m : ℕ) (os : TapLinux) (xm : Mirror) (ws : List MirrorWord)
      → All (WordOk k m) ws
      → Ok k m xm
      → Returns (λ r. Ok k m r.1) (set_tap_mirror_fn nodes os xm ws)
  unfolding set_tap_mirror_fn
  set_tap_mirror_fn-Ok k m os xm ws a p = elim (Option-cases (read_words ws no_words)) [
    | inl e ↦ rw (e, set_tap_mirror_fn) p
    | inr (l, e) ↦ elim (Option-cases l.node_name) [
      | inl f ↦ rw (e, f, set_tap_mirror_fn) p
      | inr (n, f) ↦ elim (Option-cases l.tap_name) [
        | inl g ↦ rw (e, f, g, set_tap_mirror_fn) p
        | inr (t, g) ↦
            let none_yet : LineOk k m no_words = ((λ n' q. cc q), λ t' q. cc q) in
            let o = read_words-LineOk k m ws no_words l a none_yet e in
            rw (e, f, g, set_tap_mirror_fn)
              (set_tap_mirror-Ok k m os xm n t l.is_reset (o.0 n f) (o.1 t g) p)
      ]
    ]
  ]

  run_lines-Ok :
      (k m : ℕ) (ls : List (TapLinux × List MirrorWord)) (xm : Mirror)
      → All (λ l. All (WordOk k m) l.1) ls
      → Ok k m xm
      → Returns (Ok k m) (run_lines nodes ls xm)
  unfolding run_lines
  run_lines-Ok k m [] xm a p = p
  run_lines-Ok k m ((os, ws) ∷ ls) xm a p =
      Returns->>= (λ (r : Option MirrorError × Mirror × List Call). Ok k m r.1) (Ok k m) _ _
        (set_tap_mirror_fn-Ok k m os xm ws a.0 p) λ r w. run_lines-Ok k m ls r.1 a.1 w

  -- From the state that `tap_mirror_init` leaves, no sequence of `set tap-mirror` lines whose names
  -- of nodes all have one length, and whose names of taps all have one length, makes an access out
  -- of bounds, follows a null pointer or fails an `assert`, whatever Linux and VPP answer; every
  -- positive descriptor has a name after.
  pub run_lines_init :
      (functions : ℕ → ℕ) (k m : ℕ) (ls : List (TapLinux × List MirrorWord))
      → All (λ l. All (WordOk k m) l.1) ls
      → Returns (Ok k m) (run_lines nodes ls (tap_mirror_init functions))
  unfolding tap_mirror_init
  run_lines_init functions k m ls a =
      run_lines-Ok k m ls _ a (tt, (tt, (tt, (tt, (tt, (tt, (tt, (tt, (tt, tt)))))))))
