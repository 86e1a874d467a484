-- ===== src/VppCli/Wait.antt =====
-- `wait-startup-config-process-done` of src/vpp_cli.c: VPP is asked again and again whether its process
-- for the startup configuration is done.
pub mod Attempts
use routerd.Prelude.{
  ℕ, zero, suc, ◌+◌, ◌%◌, ◌^◌, List, [], ◌∷◌, ◌++◌, Option, none, some, ◌>>=◌, Bool, true, false,
  not, ◌&&◌, ◌==◌, load, is_negative, if◌then◌else◌,
}
use routerd.Client.Messages.{Daemon, get_proc_info}
use routerd.Client.Prefix.{Numbers}
use routerd.Client.Replies.{connect_to_vpp}
use routerd.VppCli.State.{
  Msg, Call, connect, region_exit, disconnect, sleep, success, Outcome, outcome, Link,
  is_negative32,
}
use routerd.VppCli.Show.{as_proc}

-- "startup-config-process"
abbrev pub startup_config_process : List ℕ
startup_config_process =
    b's' ∷ b't' ∷ b'a' ∷ b'r' ∷ b't' ∷ b'u' ∷ b'p' ∷ b'-' ∷ b'c' ∷ b'o' ∷ b'n' ∷ b'f' ∷ b'i' ∷ b'g'
    ∷ b'-' ∷ b'p' ∷ b'r' ∷ b'o' ∷ b'c' ∷ b'e' ∷ b's' ∷ b's' ∷ []

-- The part that waits for the answer: what it tells, the daemon after, and what was done.
unfoldable pub startup_answer : Daemon → List Msg → Option (Bool × Daemon × List Call)
startup_answer sent [] = some (false, sent, connect true true ∷ disconnect ∷ [])
startup_answer sent (m ∷ msgs) = as_proc m.reply >>= λ mp.
    some (
      not (is_negative32 mp.retval) && mp.proc_flags == 0,
      sent,
      connect true true ∷ disconnect ∷ [],
    )

unfoldable pub vpp_startup_config_process_is_done :
    Link → ℕ → Daemon → Option (Bool × Daemon × List Call)
vpp_startup_config_process_is_done link random rm =
    let r = connect_to_vpp rm link.connected link.client_index link.input_queue in
    if is_negative r.0
    then some (false, rm, connect true false ∷ region_exit ∷ [])
    else (get_proc_info r.1 (random % 2 ^ 16) startup_config_process >>= λ sent.
        startup_answer sent link.arrive)

-- The loop, with the rounds left and the round. Each round is a connection of its own.
unfoldable pub wait_rounds : (ℕ → Link) → (ℕ → ℕ) → ℕ → ℕ → ℕ → Daemon → Option (Daemon × List Call)
wait_rounds links random interval zero i rm = some (rm, [])
wait_rounds links random interval (suc n) i rm =
    vpp_startup_config_process_is_done (links i) (random i) rm >>= λ r.
    let rest = wait_rounds links random interval n (i + 1) r.1 >>= λ w.
    some (w.0, r.2 ++ sleep interval ∷ w.1) in
    if r.0 then some (r.1, r.2) else rest

unfoldable pub wait_startup_config_process_done :
    Numbers → (ℕ → Link) → (ℕ → ℕ) → Daemon → List (List ℕ) → Option Outcome
wait_startup_config_process_done lib links random rm argv = load argv 2 >>= λ a2.
    load argv 4 >>= λ a4.
    wait_rounds links random (lib.strtol a4 % 2 ^ 32) (lib.strtol a2) 0 rm >>= λ w.
    some (outcome success w.0 w.1)
