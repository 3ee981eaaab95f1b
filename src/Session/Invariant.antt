-- ===== src/Session/Invariant.antt =====
-- The invariant of a session, and that every method keeps it, also where it raises.
use vlai_l1_runtime.Prelude.{◌≡◌, ◌≢◌, true, none, arith, is_some, LeSome, inl, inr}
use vlai_l1_runtime.Prelude.Result.{ok, Result-cases}
use vlai_l1_runtime.Prelude.Exec.{after_bind}
use vlai_l1_runtime.Prelude.Value.{Floats, Value, natural, text, Received}
use vlai_l1_runtime.Contracts.{
  VectorFields, CommandFields, CommandEnvelope, snapshot_command_envelope,
}
use vlai_l1_runtime.Session.State.{Session, Policy, command, initialize, Reason, fail_closed}
use vlai_l1_runtime.Session.Checks.{
  require_active_lease, same_lease, require_active_lease, check_timeouts,
}
use vlai_l1_runtime.Session.Commands.{validate_command}
use vlai_l1_runtime.Session.Methods.{
  connect_read_only, disconnect, heartbeat, release, acquire_command, enter, admit, accept,
}
use vlai_l1_runtime.Session.Acceptable.{validate_command-Validated}

module _ {F : Type 0} where
  -- No trace of a lease is left.
  pub record IsCleared (s : Session F) : Type 0 where
    pub lease_id : s.lease_id ≡ none
    pub heartbeat : s.last_heartbeat_ns ≡ none
    pub accepted : s.last_command_accepted_ns ≡ none
    pub sequence : s.previous_sequence ≡ none
    pub command_time : s.previous_command_monotonic_ns ≡ none
    pub feedback_sequence : s.previous_feedback_sequence ≡ none
    pub feedback_time : s.previous_feedback_monotonic_ns ≡ none
    pub acquired : s.lease_acquired_ns ≡ none

  -- The lease's fields are set, in the order of the session's clock.
  pub record IsHeld (s : Session F) : Type 0 where
    pub ready : s.policy.command_ready ≡ true
    pub lease_id : is_some s.lease_id ≡ true
    pub heartbeat : is_some s.last_heartbeat_ns ≡ true
    pub accepted : is_some s.last_command_accepted_ns ≡ true
    pub acquired : is_some s.lease_acquired_ns ≡ true
    pub feedback_sequence : is_some s.previous_feedback_sequence ≡ true
    pub feedback_time : is_some s.previous_feedback_monotonic_ns ≡ true
    pub command_pair : is_some s.previous_command_monotonic_ns ≡ is_some s.previous_sequence
    pub beats_later : LeSome s.lease_acquired_ns s.last_heartbeat_ns
    pub accepts_later : LeSome s.lease_acquired_ns s.last_command_accepted_ns
    pub feedback_past : LeSome s.previous_feedback_monotonic_ns s.last_command_accepted_ns
    pub command_past : LeSome s.previous_command_monotonic_ns s.last_command_accepted_ns

  pub record IsWellFormed (s : Session F) : Type 0 where
    pub held : s.mode ≡ command → IsHeld s
    pub cleared : s.mode ≢ command → IsCleared s

  pub initialize-IsWellFormed : (p : Policy F) → IsWellFormed (initialize p)
  unfolding initialize
  initialize-IsWellFormed p = ground arith

  pub fail_closed-IsWellFormed : (r : Reason) (s : Session F) → IsWellFormed (fail_closed r s)
  unfolding fail_closed
  fail_closed-IsWellFormed r s = ground arith

  pub connect_read_only-IsWellFormed :
      (now_ns : Value F) {s : Session F}
      → IsWellFormed s
      → IsWellFormed (connect_read_only now_ns s).1
  unfolding connect_read_only
  connect_read_only-IsWellFormed now_ns h = ground arith

  pub disconnect-IsWellFormed : (s : Session F) → IsWellFormed (disconnect s)
  unfolding disconnect
  disconnect-IsWellFormed s = ground arith

  pub require_active_lease-IsWellFormed :
      (lease_id : Value F) {s : Session F}
      → IsWellFormed s
      → IsWellFormed (require_active_lease lease_id s).1
  unfolding require_active_lease
  require_active_lease-IsWellFormed lease_id h = ground arith

  pub check_timeouts-IsWellFormed :
      (now_ns : Value F) {s : Session F} → IsWellFormed s → IsWellFormed (check_timeouts now_ns s).1
  unfolding check_timeouts
  check_timeouts-IsWellFormed now_ns h = ground arith

  pub release-IsWellFormed :
      (lease_id reason : Value F) {s : Session F}
      → IsWellFormed s
      → IsWellFormed (release lease_id reason s).1
  unfolding release
  release-IsWellFormed lease_id reason h = ground arith

module _ {F : Type 0} where
  pub enter-IsWellFormed :
      (lease_id now_ns : Value F) {s : Session F}
      → IsWellFormed s
      → IsWellFormed (enter lease_id now_ns s).1
  unfolding enter
  enter-IsWellFormed lease_id now_ns h = ground arith

  -- The three calls leave a session that they let pass as it was: its lease, in time.
  pub enter-kept :
      (lease_id now_ns : Value F) (s : Session F)
      → (enter lease_id now_ns s).0 ≡ ok tt
      → ((enter lease_id now_ns s).1 ≡ s)
        × (s.mode ≡ command)
        × (same_lease lease_id s.lease_id ≡ true)
        × LeSome s.last_heartbeat_ns (natural now_ns)
        × LeSome s.last_command_accepted_ns (natural now_ns)
  unfolding enter
  enter-kept lease_id now_ns s h = ground arith

  pub heartbeat-IsWellFormed :
      (lease_id now_ns : Value F) {s : Session F}
      → IsWellFormed s
      → IsWellFormed (heartbeat lease_id now_ns s).1
  unfolding heartbeat
  heartbeat-IsWellFormed lease_id now_ns {s} h =
      after_bind IsWellFormed (enter lease_id now_ns) _ s (enter-IsWellFormed lease_id now_ns h)
        λ u entered. ground (arith, enter-kept lease_id now_ns s entered)

module _ (fl : Floats) where
  open fl use {F}

  pub acquire_command-IsWellFormed :
      (lease_id : Value F) (measured : Received (VectorFields F)) (now_ns : Value F) {s : Session F}
      → IsWellFormed s
      → IsWellFormed (acquire_command fl lease_id measured now_ns s).1
  unfolding acquire_command
  acquire_command-IsWellFormed lease_id measured now_ns h = ground arith

  -- In a lease whose clock has not passed the time of the call.
  admit-IsWellFormed :
      (c : CommandEnvelope F) (now_ns : Value F) (feedback : Received (VectorFields F))
      {s : Session F}
      → IsWellFormed s
      → s.mode ≡ command
      → LeSome s.last_command_accepted_ns (natural now_ns)
      → IsWellFormed (admit fl c now_ns feedback s).1
  unfolding admit
  admit-IsWellFormed c now_ns feedback {s} h m later =
      elim (Result-cases (validate_command fl s c now_ns feedback)) [
        | inl ((f, now), e) ↦
            ground (arith, e, validate_command-Validated fl s c now_ns feedback f now e)
        | inr (x, e) ↦ ground (arith, e)
      ]

  pub accept-IsWellFormed :
      (c : Received (CommandFields F)) (now_ns : Value F) (feedback : Received (VectorFields F))
      {s : Session F}
      → IsWellFormed s
      → IsWellFormed (accept fl c now_ns feedback s).1
  unfolding accept
  accept-IsWellFormed command_object now_ns feedback {s} h =
      elim (Result-cases (snapshot_command_envelope fl command_object)) [
        | inl (c, e) ↦ rw e (
            after_bind IsWellFormed (enter (text c.lease_id) now_ns)
              (λ u. admit fl c now_ns feedback) s (enter-IsWellFormed (text c.lease_id) now_ns h)
              λ u entered.
                let (kept, commanding, same, beat, timed) =
                  enter-kept (text c.lease_id) now_ns s entered in
                rw kept (admit-IsWellFormed c now_ns feedback h commanding timed))
        | inr (x, e) ↦ ground (arith, e)
      ]
