-- ===== src/VppCli/Wait/Attempts.antt =====
-- How often `wait-startup-config-process-done` of src/vpp_cli.c asks, and how long it waits.
use routerd.Prelude.{
  ℤ, ℕ, zero, suc, ◌+◌, ◌*◌, ◌%◌, ◌^◌, ◌<◌, ◌≡◌, ◌⊎◌, ◌≢◌, refl, sym, subst, ap, inl, inr, ◌∙◌,
  List, [], ◌∷◌, ◌++◌, some, ◌>>=◌, Bool, true, false, ◌==◌, ==_iff, Bool-cases, load, is_negative,
  Returns, Returns->>=, arith,
}
use routerd.Cplane.Api.{ProcReply}
use routerd.Client.MessageId.{find_msg_id}
use routerd.Client.Names.{get_proc_info_name}
use routerd.Client.Messages.{Daemon, post, get_proc_info}
use routerd.Client.Prefix.{Numbers}
use routerd.Client.Replies.{connect_to_vpp}
use routerd.VppCli.State.{
  proc_reply, Msg, Call, connect, region_exit, disconnect, sleep, success, Outcome, Link,
  is_negative32,
}
use routerd.VppCli.Wait.{
  startup_answer, vpp_startup_config_process_is_done, wait_rounds, wait_startup_config_process_done,
}

-- The first message, if any comes, is about a process.
abbrev pub TellsProc : List Msg → Type 0
TellsProc [] = Unit {0}
TellsProc (m ∷ msgs) = (p : ProcReply) × (m.reply ≡ proc_reply p)

-- VPP is there and answers that it knows the process, with no flag set.
abbrev pub IsDone : ℤ → List Msg → Type 0
IsDone connected arrive =
    (is_negative connected ≡ false)
    × ((m : Msg) × (msgs : List Msg) × (p : ProcReply) × (arrive ≡ m ∷ msgs)
        × (m.reply ≡ proc_reply p)
        × (is_negative32 p.retval ≡ false)
        × (p.proc_flags ≡ 0))

-- The connections that were tried, those that were open less those that were closed, and the time slept.
abbrev pub tried : List Call → ℕ
tried [] = 0
tried (connect b c ∷ cs) = suc (tried cs)
tried (_ ∷ cs) = tried cs

abbrev pub opened : List Call → ℕ
opened [] = 0
opened (connect b true ∷ cs) = suc (opened cs)
opened (_ ∷ cs) = opened cs

abbrev pub closed : List Call → ℕ
closed [] = 0
closed (disconnect ∷ cs) = suc (closed cs)
closed (_ ∷ cs) = closed cs

abbrev pub slept : List Call → ℕ
slept [] = 0
slept (sleep t ∷ cs) = t + slept cs
slept (_ ∷ cs) = slept cs

-- A round that asks once and closes what it opened.
abbrev Asked : ℤ → List Msg → List (List ℕ × ℕ) → Bool × Daemon × List Call → Type 0
Asked connected arrive table r =
    (r.1.table ≡ table)
    × ((r.0 ≡ true) × IsDone connected arrive ⊎ (r.0 ≡ false) × (¬ IsDone connected arrive))
    × ((r.2 ≡ connect true true ∷ disconnect ∷ []) ⊎ (r.2 ≡ connect true false ∷ region_exit ∷ []))

-- Two accounts of the first answer agree.
same_answer :
    (m m' : Msg) (msgs msgs' : List Msg) (p p' : ProcReply)
    → m ∷ msgs ≡ m' ∷ msgs'
    → m.reply ≡ proc_reply p
    → m'.reply ≡ proc_reply p'
    → p ≡ p'
same_answer m m' msgs msgs' p p' e r r' = cc (e, r, r')

not-IsDone :
    (connected : ℤ) (m : Msg) (msgs : List Msg) (p : ProcReply)
    → m.reply ≡ proc_reply p
    → (is_negative32 p.retval ≡ true) ⊎ (p.proc_flags ≢ 0)
    → ¬ IsDone connected (m ∷ msgs)
not-IsDone connected m msgs p r h (c, (m', msgs', p', e', r', n', z')) =
    let same = same_answer m m' msgs msgs' p p' e' r r' in
    elim h [
      | inl n ↦
          let no : false ≡ true = sym n' ∙ ap (λ x. is_negative32 x.retval) (sym same) ∙ n in cc no
      | inr z ↦ z (ap (λ x. x.proc_flags) same ∙ z')
    ]

no_message : (connected : ℤ) → ¬ IsDone connected []
no_message connected (c, (m', msgs', p', e', r', n', z')) = cc e'

-- The answer in a connection, by what arrives.
answer-Asked :
    (connected : ℤ) (arrive : List Msg) (sent : Daemon)
    → is_negative connected ≡ false
    → TellsProc arrive
    → Returns (Asked connected arrive sent.table) (startup_answer sent arrive)
unfolding startup_answer
answer-Asked connected [] sent c t = (refl, inr (refl, no_message connected), inl refl)
answer-Asked connected (m ∷ msgs) sent c (p, r) = elim (Bool-cases (is_negative32 p.retval)) [
  | inl n ↦
      rw (r, n)
        (
          refl,
          inr (
            refl,
            not-IsDone connected (record { vl_msg_id = m.vl_msg_id; reply = proc_reply p }) msgs p
                refl (inl n),
          ),
          inl refl,
        )
  | inr n ↦ elim (Bool-cases (p.proc_flags == 0)) [
    | inl z ↦
        rw (r, n, z)
          (
            refl,
            inl (
              refl,
              (
                c,
                (
                  record { vl_msg_id = m.vl_msg_id; reply = proc_reply p },
                  msgs,
                  p,
                  refl,
                  refl,
                  n,
                  (==_iff _ _).0 z,
                ),
              ),
            ),
            inl refl,
          )
    | inr z ↦
        rw (r, n, z)
          (
            refl,
            inr (
              refl,
              not-IsDone connected (record { vl_msg_id = m.vl_msg_id; reply = proc_reply p }) msgs p
                  refl (inr (λ y. cc (z, (==_iff p.proc_flags 0).1 y))),
            ),
            inl refl,
          )
  ]
]

is_done-Asked :
    (link : Link) (random v : ℕ) (rm : Daemon)
    → find_msg_id rm.table get_proc_info_name ≡ some v
    → TellsProc link.arrive
    → Returns
        (Asked link.connected link.arrive rm.table)
        (vpp_startup_config_process_is_done link random rm)
unfolding vpp_startup_config_process_is_done connect_to_vpp get_proc_info post
is_done-Asked link random v rm e t = elim (Bool-cases (is_negative link.connected)) [
  | inl c ↦ rw c (refl, inr (refl, λ d. cc (c, d.0)), inr refl)
  | inr c ↦ rw (c, e, ◌>>=◌) (answer-Asked link.connected link.arrive _ c t)
]

-- What the rounds do from round i on: up to round i + m VPP is not done. Either it is in that round, or
-- all n rounds are used up.
abbrev pub Rounds : (ℕ → Link) → ℕ → ℕ → ℕ → List (List ℕ × ℕ) → Daemon × List Call → Type 0
Rounds links interval n i table w =
    (w.0.table ≡ table)
    × (opened w.1 ≡ closed w.1)
    × ((m : ℕ) × ((j : ℕ) → j < m → ¬ IsDone (links (i + j)).connected (links (i + j)).arrive)
        × (slept w.1 ≡ m * interval)
        × (((m < n) × IsDone (links (i + m)).connected (links (i + m)).arrive × (tried w.1 ≡ suc m))
            ⊎ ((m ≡ n) × (tried w.1 ≡ n))))

-- What one round adds to the counts.
abbrev Counted : ℕ → List Call → List Call → Type 0
Counted interval before after =
    (opened before ≡ closed before → opened after ≡ closed after)
    × (tried after ≡ suc (tried before))
    × (slept after ≡ interval + slept before)

counted :
    (interval : ℕ) (cs rest : List Call)
    → (cs ≡ connect true true ∷ disconnect ∷ []) ⊎ (cs ≡ connect true false ∷ region_exit ∷ [])
    → Counted interval rest (cs ++ sleep interval ∷ rest)
counted interval cs rest e = elim e [
  | inl r ↦ rw r (λ o. ap suc o, refl, refl)
  | inr r ↦ rw r (λ o. o, refl, refl)
]

before_next :
    (P : ℕ → Type 0) (i m : ℕ)
    → ¬ P i
    → ((j : ℕ) → j < m → ¬ P (i + 1 + j))
    → (j : ℕ) → j < suc m
    → ¬ P (i + j)
before_next P i m here before zero h p = here (subst P (omega arith) p)
before_next P i m here before (suc j) h p = before j (omega arith) (subst P (omega arith) p)

-- A round before those that follow.
next_round :
    (links : ℕ → Link) (interval n i : ℕ) (table : List (List ℕ × ℕ)) (w : Daemon × List Call)
    → (cs : List Call)
    → (cs ≡ connect true true ∷ disconnect ∷ []) ⊎ (cs ≡ connect true false ∷ region_exit ∷ [])
    → ¬ IsDone (links i).connected (links i).arrive
    → Rounds links interval n (i + 1) table w
    → Rounds links interval (suc n) i table (w.0, cs ++ sleep interval ∷ w.1)
next_round links interval n i table w cs e here (t, o, (m, before, s, last)) =
    let c = counted interval cs w.1 e in
    (
      t,
      c.0 o,
      (
        suc m,
        before_next (λ k. IsDone (links k).connected (links k).arrive) i m here before,
        c.2 ∙ ap (λ x. interval + x) s ∙ (omega arith),
        elim last [
          | inl (h, d, t') ↦ inl (
            omega arith,
            subst (λ k. IsDone (links k).connected (links k).arrive) (omega arith) d,
            c.1 ∙ ap suc t',
          )
          | inr (h, t') ↦ inr (ap suc h, c.1 ∙ ap suc t')
        ],
      ),
    )

-- A round in which VPP is done.
done_round :
    (links : ℕ → Link) (interval n i : ℕ) (table : List (List ℕ × ℕ)) (w : Daemon × List Call)
    → w.0.table ≡ table
    → (w.1 ≡ connect true true ∷ disconnect ∷ []) ⊎ (w.1 ≡ connect true false ∷ region_exit ∷ [])
    → IsDone (links i).connected (links i).arrive
    → Rounds links interval (suc n) i table w
done_round links interval n i table w t e d =
    let here : IsDone (links (i + 0)).connected (links (i + 0)).arrive =
      subst (λ k. IsDone (links k).connected (links k).arrive) (omega arith) d in
    elim e [
      | inl r ↦ rw r (t, refl, (0, λ j h. omega arith, omega arith, inl (omega arith, here, refl)))
      | inr r ↦ rw r (t, refl, (0, λ j h. omega arith, omega arith, inl (omega arith, here, refl)))
    ]

wait_rounds-Rounds :
    (links : ℕ → Link) (random : ℕ → ℕ) (interval n i v : ℕ) (rm : Daemon)
    → find_msg_id rm.table get_proc_info_name ≡ some v
    → ((k : ℕ) → TellsProc (links k).arrive)
    → Returns (Rounds links interval n i rm.table) (wait_rounds links random interval n i rm)
unfolding wait_rounds
wait_rounds-Rounds links random interval zero i v rm e tells =
    (refl, refl, (0, λ j h. omega arith, omega arith, inr (refl, refl)))
wait_rounds-Rounds links random interval (suc n) i v rm e tells =
    Returns->>= (Asked (links i).connected (links i).arrive rm.table) _ _ _
      (is_done-Asked (links i) (random i) v rm e (tells i))
      (λ r a. elim a.1 [
        | inl (t, d) ↦ rw t (done_round links interval n i rm.table (r.1, r.2) a.0 a.2 d)
        | inr (f, d) ↦ rw f (
            Returns->>= (Rounds links interval n (i + 1) r.1.table) _ _ _
              (wait_rounds-Rounds links random interval n (i + 1) v r.1
                (ap (λ x. find_msg_id x get_proc_info_name) a.0 ∙ e) tells)
              (λ w rs. next_round links interval n i rm.table w r.2 a.2 d (rs.0 ∙ a.0, rs.1, rs.2)))
      ])

-- For `wait-startup-config-process-done`, where the table knows the message and each round's first
-- message, if one comes, is about a process: the command ends with success after it asked until
-- the first round in which VPP says that the process has no flag set, or after all the rounds it was
-- given. Each round before that waited for the interval, and each opened connection was closed.
pub wait_done_lem :
    (lib : Numbers) (links : ℕ → Link) (random : ℕ → ℕ) (rm : Daemon) (argv : List (List ℕ))
    → (a2 a4 : List ℕ) (v : ℕ) → load argv 2 ≡ some a2
    → load argv 4 ≡ some a4
    → find_msg_id rm.table get_proc_info_name ≡ some v
    → ((k : ℕ) → TellsProc (links k).arrive)
    → Returns
        (λ (o : Outcome).
          (o.code ≡ success)
          × Rounds links (lib.strtol a4 % 2 ^ 32) (lib.strtol a2) 0 rm.table (o.daemon, o.calls))
        (wait_startup_config_process_done lib links random rm argv)
unfolding wait_startup_config_process_done
wait_done_lem lib links random rm argv a2 a4 v e2 e4 e tells =
    rw (e2, e4, ◌>>=◌)
      (Returns->>= (Rounds links (lib.strtol a4 % 2 ^ 32) (lib.strtol a2) 0 rm.table) _ _ _
        (wait_rounds-Rounds links random (lib.strtol a4 % 2 ^ 32) (lib.strtol a2) 0 v rm e tells)
        (λ w rs. (refl, rs)))
