-- ===== src/Session/Methods.antt =====
-- The public methods of `CommandSession`. Each takes its arguments, then the session.
use vlai_l1_runtime.Prelude.{ℕ, ◌-◌, String, Bool, Option, none, some, ltb, leb, if◌then◌else◌}
use vlai_l1_runtime.Prelude.Result.{Result, ok, err}
use vlai_l1_runtime.Prelude.Exec.{Exec, lift, gets, modify, guard, ◌>>=◌, ◌>>◌}
use vlai_l1_runtime.Prelude.Value.{Floats, Value, text, Received}
use vlai_l1_runtime.Contracts.{
  Raised, contract, overflow_error, SampleMetadata, NamedJointVector, VectorFields, CommandEnvelope,
  CommandFields, require_normalized, snapshot_command_envelope,
}
use vlai_l1_runtime.Session.State.{
  Session, disconnected, read_only, command, Failure, already_connected, not_read_only, not_ready,
  bad_lease_id, violation, measured_in_future, measured_too_old, lease_released,
  heartbeat_backwards, bad_reason, overflow, requested, invalid_command, invalid_release_reason,
  non_monotonic_heartbeat, clear_command_state, fail_closed, is_command, is_read_only,
  is_disconnected,
}
use vlai_l1_runtime.Session.Checks.{require_time, require_active_lease, check_timeouts}
use vlai_l1_runtime.Session.Commands.{measured_pose, validate_command}

-- `except ContractError as exc: raise SessionError(str(exc))`
abbrev pub failure : Raised → Failure
failure (contract e) = violation e
failure overflow_error = overflow

abbrev pub as_session_error {ℓ} : {A : Type ℓ} → Result Raised A → Result Failure A
as_session_error (ok a) = ok a
as_session_error (err e) = err (failure e)

abbrev earlier : ℕ → Option ℕ → Bool
earlier now none = Bool.false
earlier now (some last) = ltb now last

module _ {F : Type 0} where
  unfoldable pub connect_read_only : Value F → Exec (Session F) Failure (Unit {0})
  unfolding require_time
  connect_read_only now_ns = do
    now ← lift (require_time now_ns)
    disconnected_now ← gets (λ s. is_disconnected s.mode)
    guard disconnected_now already_connected
    modify (λ s. record s { mode = read_only; release_reason = none })

  unfoldable pub disconnect : Session F → Session F
  unfolding clear_command_state
  disconnect s = record (clear_command_state s) { mode = disconnected }

  -- `if self.mode is not SessionMode.COMMAND: raise SessionError(...)` after the time-outs
  abbrev still_command : Exec (Session F) Failure (Unit {0})
  still_command s =
      if is_command s.mode then (ok tt, s) else (err (lease_released s.release_reason), s)

  abbrev renew : ℕ → Exec (Session F) Failure (Unit {0})
  renew now s =
      if earlier now s.last_heartbeat_ns
      then (err heartbeat_backwards, fail_closed non_monotonic_heartbeat s)
      else (ok tt, record s { last_heartbeat_ns = some now })

  -- The three calls with which `heartbeat` and `accept` begin.
  unfoldable pub enter : Value F → Value F → Exec (Session F) Failure (Unit {0})
  unfolding require_active_lease check_timeouts
  enter lease_id now_ns = do
    require_active_lease lease_id
    released ← check_timeouts now_ns
    still_command

  -- The time was checked by `check_timeouts`, so reading it again raises nothing.
  unfoldable pub heartbeat : Value F → Value F → Exec (Session F) Failure (Unit {0})
  unfolding fail_closed require_time
  heartbeat lease_id now_ns = do enter lease_id now_ns; now ← lift (require_time now_ns); renew now

  abbrev released_for : Option String → Exec (Session F) Failure (Unit {0})
  released_for none s = (err bad_reason, fail_closed invalid_release_reason s)
  released_for (some reason) s = (ok tt, fail_closed (requested reason) s)

  unfoldable pub release : Value F → Value F → Exec (Session F) Failure (Unit {0})
  unfolding require_active_lease fail_closed require_normalized
  release lease_id reason = do
    require_active_lease lease_id
    released_for (require_normalized reason)

-- The session after a lease is taken.
unfoldable pub leased : {F : Type 0} → String → SampleMetadata → ℕ → Session F → Session F
leased lease_id measured now s = record s {
  mode = command;
  lease_id = some lease_id;
  last_heartbeat_ns = some now;
  last_command_accepted_ns = some now;
  previous_sequence = none;
  previous_command_monotonic_ns = none;
  release_reason = none;
  previous_feedback_sequence = some measured.source_sequence;
  previous_feedback_monotonic_ns = some measured.monotonic_ns;
  lease_acquired_ns = some now;
}

abbrev lease_text : Option String → Result Failure String
lease_text none = err bad_lease_id
lease_text (some s) = ok s

module _ (fl : Floats) where
  open fl use {F}

  unfoldable pub acquire_command :
      Value F → Received (VectorFields F) → Value F → Exec (Session F) Failure (Unit {0})
  unfolding require_time require_normalized measured_pose leased
  acquire_command lease_id measured now_ns = do
    now ← lift (require_time now_ns)
    read_only_now ← gets (λ s. is_read_only s.mode)
    guard read_only_now not_read_only
    ready ← gets (λ s. s.policy.command_ready)
    guard ready not_ready
    lease ← lift (lease_text (require_normalized lease_id))
    snapshot ← lift (as_session_error (measured_pose fl measured))
    guard (leb snapshot.metadata.monotonic_ns now) measured_in_future
    limit ← gets (λ s. s.policy.command_inactivity_timeout_ns)
    guard (leb (now - snapshot.metadata.monotonic_ns) limit) measured_too_old
    modify (leased lease snapshot.metadata now)

  abbrev snapshot_or_fail :
      Result Raised (CommandEnvelope F) → Exec (Session F) Failure (CommandEnvelope F)
  snapshot_or_fail (ok c) s = (ok c, s)
  snapshot_or_fail (err overflow_error) s = (err overflow, s)
  snapshot_or_fail (err (contract e)) s =
      (err (violation e), if is_command s.mode then fail_closed (invalid_command e) s else s)

  abbrev checked_or_fail :
      Result Raised (NamedJointVector F × ℕ) → Exec (Session F) Failure (NamedJointVector F × ℕ)
  checked_or_fail (ok checked) s = (ok checked, s)
  checked_or_fail (err overflow_error) s = (err overflow, s)
  checked_or_fail (err (contract e)) s = (err (violation e), fail_closed (invalid_command e) s)

  -- The assignments at the end of `accept`.
  unfoldable pub record_accepted :
      CommandEnvelope F → NamedJointVector F × ℕ → Session F → Session F
  record_accepted c (feedback, now) s = record s {
    previous_sequence = some c.sequence;
    previous_command_monotonic_ns = some c.monotonic_ns;
    previous_feedback_sequence = some feedback.metadata.source_sequence;
    previous_feedback_monotonic_ns = some feedback.metadata.monotonic_ns;
    last_command_accepted_ns = some now;
  }

  -- The second `try` of `accept` and the assignments behind it.
  unfoldable pub admit :
      CommandEnvelope F → Value F → Received (VectorFields F) → Exec (Session F) Failure (Unit {0})
  unfolding fail_closed record_accepted
  admit c now_ns feedback = do
    checked ← (λ s. checked_or_fail (validate_command fl s c now_ns feedback) s)
    modify (record_accepted c checked)

  unfoldable pub accept :
      Received (CommandFields F)
      → Value F
      → Received (VectorFields F)
      → Exec (Session F) Failure (Unit {0})
  unfolding fail_closed
  accept command_object now_ns feedback = do
    c ← snapshot_or_fail (snapshot_command_envelope fl command_object)
    enter (text c.lease_id) now_ns
    admit c now_ns feedback
