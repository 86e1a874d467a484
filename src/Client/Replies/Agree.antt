-- ===== src/Client/Replies/Agree.antt =====
-- The plugin's handler and the daemon's waiting, together; and the words for processes.
use routerd.Prelude.{
  ℕ, ◌<◌, ◌^◌, map, ◌%◌, ◌≡◌, ◌⊎◌, inl, inr, refl, List, [], ◌∷◌, ◌++◌, Option, none, some, Bool,
  true, false, has_bit, htonl, htonl-htonl, Returns, Returns-mono, if◌then◌else◌, arith,
}
use routerd.Vppinfra.{Vppinfra}
use routerd.Cplane.Env.{Vpp, Linux, Effect}
use routerd.Cplane.State.{tap_inject_is_enabled}
use routerd.Cplane.Connect.{State}
use routerd.Cplane.Interfaces.Safety.{Known, IsReady}
use routerd.Cplane.Handlers.{Step, did, enable_disable_reply, minus_one, enable_disable_handler}
use routerd.Cplane.Handlers.Safety.{AllOff, Handled, enable_disable_handler-Handled}
use routerd.Client.Replies.{
  enable_disable_tap_inject_retval, done, active, time_wait, event_wait, any_wait,
  vpp_proc_flags_to_state,
}

-- The `retval` of the first reply among the steps, in network order, as REPLY_MACRO sends it.
unfoldable pub first_reply : List Step → Option ℕ
first_reply [] = none
first_reply (did e ∷ steps) = first_reply steps
first_reply (enable_disable_reply v ∷ steps) = some (htonl v)

first_reply-append :
    (es : List Effect) (v : ℕ)
    → first_reply (map did es ++ enable_disable_reply v ∷ []) ≡ some (htonl v)
unfolding first_reply
first_reply-append [] v = refl
first_reply-append (e ∷ es) v = first_reply-append es v

-- The daemon reads the value of any reply.
retval_lem : (v : ℕ) → v < 2 ^ 32 → enable_disable_tap_inject_retval (some (htonl v)) ≡ v
unfolding enable_disable_tap_inject_retval
retval_lem v l = htonl-htonl v l

module _ (V : Vppinfra) (vpp : Vpp) (known : Known vpp vpp.hw_interfaces) where
  -- What the daemon concludes from the first message that comes.
  abbrev pub Agrees : Bool → State V × List Step → Type 0
  Agrees is_enable (st, steps) =
      (enable_disable_tap_inject_retval (first_reply steps) ≡ 0)
        × (tap_inject_is_enabled V st.main ≡ is_enable)
      ⊎ (enable_disable_tap_inject_retval (first_reply steps) ≡ minus_one)
        × (tap_inject_is_enabled V st.main ≡ false)
        × AllOff V vpp known st

  -- Where VPP knows the interfaces of its pool and none waits, the plugin's handler makes no access
  -- out of bounds. The value that the daemon reads in the first reply agrees with the plugin's state:
  -- at 0 tap injection is as asked for, at -1 it is disabled and no interface has a tap. And the
  -- daemon reads back any value of 32 bits that a reply carries in network order.
  pub retval-Agrees :
      (os : ℕ → Linux) (is_enable : Bool) (st : State V)
      → IsReady V st
      → Returns (Agrees is_enable) (enable_disable_handler V vpp os is_enable st)
        × ((v : ℕ) → v < 2 ^ 32 → enable_disable_tap_inject_retval (some (htonl v)) ≡ v)
  retval-Agrees os is_enable st r = (
    Returns-mono (Handled V vpp known is_enable) (Agrees is_enable) _
        (λ o h. elim h.1 [
          | inl ((es, e), s, a) ↦
              inl (rw (e, first_reply-append es 0) (retval_lem 0 (omega arith)), s)
          | inr ((es, e), s, a) ↦
              inr
                (rw (e, first_reply-append es minus_one) (retval_lem minus_one (omega arith)), s, a)
        ])
        (enable_disable_handler-Handled V vpp known os is_enable st r),
    retval_lem,
  )

-- The word for a process by its flags: it waits for time if the first bit is set, for an event if
-- the second is, for any if both are; else it is active if the running bit is set and done if not.
pub vpp_proc_flags_to_state_lem :
    (running flags : ℕ)
    → (has_bit flags 0 ≡ true
        → has_bit flags 1 ≡ true
        → vpp_proc_flags_to_state running flags ≡ any_wait)
      × (has_bit flags 0 ≡ true
          → has_bit flags 1 ≡ false
          → vpp_proc_flags_to_state running flags ≡ time_wait)
      × (has_bit flags 0 ≡ false
          → has_bit flags 1 ≡ true
          → vpp_proc_flags_to_state running flags ≡ event_wait)
      × (has_bit flags 0 ≡ false
          → has_bit flags 1 ≡ false
          → vpp_proc_flags_to_state running flags
            ≡ (if has_bit flags running then active else done))
unfolding vpp_proc_flags_to_state
vpp_proc_flags_to_state_lem running flags = (
  (λ a b. let w : flags % 4 ≡ 3 = ground (arith, a, b) in rw w refl),
  (λ a b. let w : flags % 4 ≡ 1 = ground (arith, a, b) in rw w refl),
  (λ a b. let w : flags % 4 ≡ 2 = ground (arith, a, b) in rw w refl),
  λ a b. let w : flags % 4 ≡ 0 = ground (arith, a, b) in rw w refl,
)
