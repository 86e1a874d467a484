-- ===== src/VppCli/Setting/Answers.antt =====
-- The part that the setting commands of src/vpp_cli.c share: one message, and what they conclude from
-- its answer.
use routerd.Prelude.{
  ℕ, ◌^◌, ◌≤◌, ◌<◌, ◌≡◌, ◌⊎◌, refl, subst, inl, inr, List, [], ◌∷◌, Option, some, ◌>>=◌, Bool, true,
  false, Bool-cases, htonl, is_negative, Returns, Returns-mono, Returns-some, arith,
}
use routerd.Client.MessageId.{find_msg_id}
use routerd.Client.Messages.{Daemon}
use routerd.Client.Messages.Sent.{
  Request, perform, name_of, Fits, id_bound, SentOne, perform-SentOne,
}
use routerd.Client.Replies.{connect_to_vpp}
use routerd.VppCli.State.{
  retval_reply, Msg, could_not_connect, setting_failed, Call, connect, region_exit, disconnect, out,
  Code, success, warning_config_failed, Outcome, outcome, Link, connecting, is_negative32,
}
use routerd.VppCli.State.Loop.{joined}
use routerd.VppCli.Setting.{answered}

-- The first message that arrives, if any does, is an answer with a value.
abbrev pub Answerable : List Msg → Type 0
Answerable [] = Unit {0}
Answerable (m ∷ msgs) = (v : ℕ) × (m.reply ≡ retval_reply v)

-- What a command concludes: from no answer as it is told, from one by its value.
abbrev pub Concluded : Bool → Code → List Call → List Msg → Outcome → Type 0
Concluded no_rx code calls [] o = (o.code ≡ code) × (o.calls ≡ connect no_rx true ∷ calls)
Concluded no_rx code calls (m ∷ msgs) o =
    (v : ℕ) × (m.reply ≡ retval_reply v)
    × ((2 ^ 31 ≤ htonl v)
          × (o.code ≡ warning_config_failed)
          × (o.calls ≡ connect no_rx true ∷ out (setting_failed (htonl v)) ∷ disconnect ∷ [])
        ⊎ (htonl v < 2 ^ 31)
          × (o.code ≡ success)
          × (o.calls ≡ connect no_rx true ∷ disconnect ∷ []))

-- A command without a connection sends nothing; one with it sends and concludes.
abbrev pub Obeyed : Link → Daemon → Bool → Code → List Call → (Daemon → Type 0) → Outcome → Type 0
Obeyed link rm no_rx code calls Sent o =
    (is_negative link.connected ≡ true)
      × (o
          ≡ outcome warning_config_failed rm
              (connect no_rx false ∷ region_exit ∷ out could_not_connect ∷ []))
    ⊎ (is_negative link.connected ≡ false)
      × Sent o.daemon
      × Concluded no_rx code calls link.arrive o

module _ (no_rx : Bool) (code : Code) (calls : List Call) (Sent : Daemon → Type 0) where
  answered-Concluded :
      (sent : Daemon) (msgs : List Msg)
      → Sent sent
      → Answerable msgs
      → Returns
          (λ o. Sent o.daemon × Concluded no_rx code calls msgs o)
          (answered sent msgs (outcome code sent calls) >>= λ o.
            some (outcome o.code o.daemon (connect no_rx true ∷ o.calls)))
  unfolding answered
  answered-Concluded sent [] s a = (s, (refl, refl))
  answered-Concluded sent (m ∷ msgs) s (v, e) = elim (Bool-cases (is_negative32 (htonl v))) [
    | inl t ↦ rw (e, t) (s, (v, refl, inl (ground (arith, t), refl, refl)))
    | inr t ↦ rw (e, t) (s, (v, refl, inr (ground (arith, t), refl, refl)))
  ]

  pub asked :
      (link : Link) (rm : Daemon) (send : Daemon → Option Daemon)
      → Returns Sent (send (joined link rm))
      → Answerable link.arrive
      → Returns (Obeyed link rm no_rx code calls Sent) (
          connecting link no_rx rm
            λ rm'. send rm' >>= λ sent. answered sent link.arrive (outcome code sent calls))
  unfolding connecting connect_to_vpp
  asked link rm send h a = elim (Bool-cases (is_negative link.connected)) [
    | inl t ↦ rw t (inl (t, refl))
    | inr t ↦
        let (sent, e, s) = Returns-some Sent (send (joined link rm)) h in
        rw (t, e, ◌>>=◌)
          (Returns-mono (λ o. Sent o.daemon × Concluded no_rx code calls link.arrive o) _ _
            (λ o k. inr (t, k.0, k.1)) (answered-Concluded sent link.arrive s a))
  ]

pub performed :
    (rm : Daemon) (k k' number : ℕ) (q q' : Request)
    → q ≡ q'
    → k ≡ k'
    → find_msg_id rm.table (name_of q) ≡ some number
    → number < 2 ^ 16
    → k < id_bound q
    → Fits rm q
    → Returns (SentOne rm k number q) (perform rm k' q')
performed rm k k' number q q' m c e n l f =
    subst (λ x. Returns (SentOne rm k number q) (perform rm k' x)) m
      (subst (λ x. Returns (SentOne rm k number q) (perform rm x q)) c
        (perform-SentOne rm k number q e n l f))
