-- ===== src/Session/Checks.antt =====
-- The guards that the methods share: time, lease, time-outs, feedback.
use vlai_l1_runtime.Prelude.{
  ℕ, ◌-◌, String, Bool, true, false, not, ◌||◌, Option, none, some, str_eq, ltb, leb, if◌then◌else◌,
}
use vlai_l1_runtime.Prelude.Result.{Result, ok, err, ◌>>=◌}
use vlai_l1_runtime.Prelude.Exec.{Exec}
use vlai_l1_runtime.Prelude.Value.{Floats, Value, absent, text, natural, Received}
use vlai_l1_runtime.Contracts.{
  no_previous_feedback, feedback_sequence_not_increasing, feedback_time_not_increasing,
  feedback_in_future, feedback_stale, Raised, contract, NamedJointVector, VectorFields,
  feature_names, as_mapping, validate_named_values, snapshot_named_joint_vector,
}
use vlai_l1_runtime.Session.State.{
  Session, Failure, bad_time, not_active, lease_differs, Reason, lease_mismatch,
  invalid_session_time, incomplete_command_state, non_monotonic_session_time, liveness_timeout,
  command_inactivity_timeout, fail_closed, is_command,
}

-- `_require_time`; the checked time comes back
unfoldable pub require_time : {F : Type 0} → Value F → Result Failure ℕ
require_time now_ns = elim (natural now_ns) [ none ↦ err bad_time | some n ↦ ok n ]

-- `lease_id == self.lease_id`
unfoldable pub same_lease : {F : Type 0} → Value F → Option String → Bool
same_lease (text a) (some b) = str_eq a b
same_lease absent none = true
same_lease _ _ = false

module _ {F : Type 0} where
  -- `_require_active_lease`
  unfoldable pub require_active_lease : Value F → Exec (Session F) Failure (Unit {0})
  unfolding same_lease fail_closed
  require_active_lease lease_id s =
      if not (is_command s.mode)
      then (err not_active, s)
      else if not (same_lease lease_id s.lease_id)
      then (err lease_differs, fail_closed lease_mismatch s)
      else (ok tt, s)

  -- The part of `check_timeouts` behind the tests for None: the reason to fail, if any.
  unfoldable pub timeout_reason : Session F → ℕ → ℕ → ℕ → Option Reason
  timeout_reason s now heartbeat accepted =
      if ltb now heartbeat || ltb now accepted
      then some non_monotonic_session_time
      else if ltb s.policy.liveness_timeout_ns (now - heartbeat)
      then some liveness_timeout
      else if ltb s.policy.command_inactivity_timeout_ns (now - accepted)
      then some command_inactivity_timeout
      else none

  abbrev released_by : Option Reason → Session F → Bool × Session F
  released_by none s = (false, s)
  released_by (some reason) s = (true, fail_closed reason s)

  abbrev due : Session F → ℕ → Option ℕ → Option ℕ → Option Reason
  due s now (some heartbeat) (some accepted) = timeout_reason s now heartbeat accepted
  due s now _ _ = some incomplete_command_state

  -- `check_timeouts` at a checked time
  unfoldable pub expire : ℕ → Session F → Bool × Session F
  unfolding timeout_reason fail_closed
  expire now s =
      if not (is_command s.mode)
      then (false, s)
      else released_by (due s now s.last_heartbeat_ns s.last_command_accepted_ns) s

  abbrev checked_time : Result Failure ℕ → Session F → Result Failure Bool × Session F
  checked_time (err e) s =
      (err e, if is_command s.mode then fail_closed invalid_session_time s else s)
  checked_time (ok now) s = let (released, s') = expire now s in (ok released, s')

  unfoldable pub check_timeouts : Value F → Exec (Session F) Failure Bool
  unfolding require_time expire fail_closed
  check_timeouts now_ns s = checked_time (require_time now_ns) s

module _ (fl : Floats) where
  open fl use {F}

  -- The tests of `_validate_feedback` on a snapshot whose values are checked.
  unfoldable pub feedback_order :
      Session F → ℕ → ℕ → ℕ → NamedJointVector F → Result Raised (NamedJointVector F)
  feedback_order s now last_sequence last_time snapshot =
      if leb snapshot.metadata.source_sequence last_sequence
      then err (contract feedback_sequence_not_increasing)
      else if leb snapshot.metadata.monotonic_ns last_time
      then err (contract feedback_time_not_increasing)
      else if ltb now snapshot.metadata.monotonic_ns
      then err (contract feedback_in_future)
      else if ltb s.policy.command_inactivity_timeout_ns (now - snapshot.metadata.monotonic_ns)
      then err (contract feedback_stale)
      else ok snapshot

  abbrev feedback_against :
      Session F → ℕ → Option ℕ → Option ℕ → NamedJointVector F → Result Raised (NamedJointVector F)
  feedback_against s now (some last_sequence) (some last_time) snapshot = do
    values ← validate_named_values fl feature_names (as_mapping snapshot.values)
    feedback_order s now last_sequence last_time snapshot
  feedback_against s now _ _ snapshot = err (contract no_previous_feedback)

  unfoldable pub validate_feedback :
      Session F → ℕ → Received (VectorFields F) → Result Raised (NamedJointVector F)
  unfolding feedback_order
  validate_feedback s now feedback = do
    snapshot ← snapshot_named_joint_vector fl feedback
    feedback_against s now s.previous_feedback_sequence s.previous_feedback_monotonic_ns snapshot
