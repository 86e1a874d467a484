-- ===== src/VppCli/State/Loop.antt =====
-- What the reply loops of src/vpp_cli.c go through.
use routerd.Prelude.{
  ℕ, ◌%◌, ◌^◌, ◌<◌, ◌≡◌, ◌≢◌, refl, List, [], ◌∷◌, ◌++◌, Option, some, ◌>>=◌, Bool, true, false,
  ==_refl, ==_ne, htons, htons-htons, All, is_negative, Returns, Returns->>=, arith,
}
use routerd.Client.MessageId.{find_msg_id}
use routerd.Client.Names.{control_ping_reply_name}
use routerd.Client.Messages.{Daemon}
use routerd.Client.Replies.{connect_to_vpp}
use routerd.VppCli.State.{Reply, pong, Msg, connect, Outcome, outcome, Link, connecting, until_pong}

-- VPP's answer to the ping, whose number is `pong_id`.
abbrev pub pong_msg : ℕ → Msg
pong_msg pong_id = record { vl_msg_id = htons pong_id; reply = pong }

abbrev pub fold_left {ℓ κ} : {S : Type ℓ} {D : Type κ} → (S → D → S) → S → List D → S
fold_left f s [] = s
fold_left f s (d ∷ ds) = fold_left f (f s d) ds

-- Messages of the number, one for each datum.
abbrev pub msgs_of {κ} : {D : Type κ} → (D → Reply) → ℕ → List D → List Msg
msgs_of rep number [] = []
msgs_of rep number (d ∷ ds) =
    record { vl_msg_id = htons number; reply = rep d } ∷ msgs_of rep number ds

module _ {ℓ κ} {S : Type ℓ} {D : Type κ} (rep : D → Reply) where
  -- Messages of another number than the pong's, then the pong: a loop whose body does a step on each of
  -- them, keeping an invariant, does the steps in order and leaves what comes behind the pong.
  pub until_pong-fold :
      (table : List (List ℕ × ℕ)) (body : S → Reply → Option S) (step : S → D → S) (P : D → Type 0)
      (I : List D → S → Type 0) (number pong_id : ℕ)
      → find_msg_id table control_ping_reply_name ≡ some pong_id
      → pong_id < 2 ^ 16
      → number < 2 ^ 16
      → number ≢ pong_id
      → ((s : S) (d : D) (ds : List D)
          → I (d ∷ ds) s
          → P d
          → (body s (rep d) ≡ some (step s d)) × I ds (step s d))
      → (s : S) (ds : List D) (rest : List Msg) → I ds s
      → All P ds
      → (until_pong table body s (msgs_of rep number ds ++ pong_msg pong_id ∷ rest)
          ≡ some (fold_left step s ds, true, rest))
        × I [] (fold_left step s ds)
  unfolding until_pong
  until_pong-fold table body step P I number pong_id e l m n law s [] rest i a =
      let p : pong_id % 2 ^ 16 ≡ pong_id = omega (arith, l) in
      (rw (e, ◌>>=◌, htons-htons pong_id l, p, ==_refl pong_id) refl, i)
  until_pong-fold table body step P I number pong_id e l m n law s (d ∷ ds) rest i a =
      let p : pong_id % 2 ^ 16 ≡ pong_id = omega (arith, l) in
      let (b, i') = law s d ds i a.0 in
      let (r, k) =
        until_pong-fold table body step P I number pong_id e l m n law (step s d) ds rest i' a.1 in
      (rw (e, ◌>>=◌, htons-htons number m, p, ==_ne number pong_id n, b, ◌>>=◌) r, k)

-- The daemon in its connection.
abbrev pub joined : Link → Daemon → Daemon
joined link rm = record rm { my_client_index = link.client_index; queue = link.input_queue }

-- A command in its connection is its body, behind the call that connected.
pub connecting-Returns :
    (link : Link) (no_rx : Bool) (rm : Daemon) (body : Daemon → Option Outcome)
    (P Q : Outcome → Type 0)
    → is_negative link.connected ≡ false
    → Returns P (body (joined link rm))
    → ((o : Outcome) → P o → Q (outcome o.code o.daemon (connect no_rx true ∷ o.calls)))
    → Returns Q (connecting link no_rx rm body)
unfolding connecting connect_to_vpp
connecting-Returns link no_rx rm body P Q c h f =
    rw c (Returns->>= P Q (body (joined link rm)) _ h f)
