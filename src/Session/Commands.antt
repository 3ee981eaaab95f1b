-- ===== src/Session/Commands.antt =====
-- What `acquire_command` and `accept` ask of a measured pose, a command and its feedback.
use vlai_l1_runtime.Prelude.{ℕ, ◌-◌, Bool, Option, none, some, ltb, leb, if◌then◌else◌}
use vlai_l1_runtime.Prelude.Result.{Result, ok, err, ◌>>=◌, ◌>>◌}
use vlai_l1_runtime.Prelude.Value.{Floats, Value, Received}
use vlai_l1_runtime.Contracts.{
  command_stale, feedback_before_lease, command_before_feedback, Raised, contract, NamedJointVector,
  VectorFields, CommandEnvelope, feature_names, as_mapping, validate_named_values,
  snapshot_named_joint_vector, validate_contiguous_command, validate_first_command_hold,
}
use vlai_l1_runtime.Session.State.{Session}
use vlai_l1_runtime.Session.Checks.{validate_feedback}

abbrev pub before_lease : ℕ → Option ℕ → Bool
before_lease t none = Bool.true
before_lease t (some acquired) = leb t acquired

abbrev pub first_if : Option ℕ → Result Raised (Unit {0}) → Result Raised (Unit {0})
first_if none checks = checks
first_if (some n) checks = ok tt

module _ (fl : Floats) where
  open fl use {F}

  -- The measured pose that a lease starts from: its copy, with the values checked once more.
  unfoldable pub measured_pose : Received (VectorFields F) → Result Raised (NamedJointVector F)
  measured_pose measured = do
    snapshot ← snapshot_named_joint_vector fl measured
    values ← validate_named_values fl feature_names (as_mapping snapshot.values)
    ok snapshot

  -- The tests of the first command of a lease.
  unfoldable pub first_command :
      Session F → CommandEnvelope F → NamedJointVector F → Result Raised (Unit {0})
  first_command s c feedback =
      if before_lease feedback.metadata.monotonic_ns s.lease_acquired_ns
      then err (contract feedback_before_lease)
      else if ltb c.monotonic_ns feedback.metadata.monotonic_ns
      then err (contract command_before_feedback)
      else validate_first_command_hold fl c.action feedback.values
          s.policy.first_command_hold_tolerance_deg

  abbrev fresh : Session F → ℕ → CommandEnvelope F → Result Raised (Unit {0})
  fresh s now c =
      if ltb s.policy.command_inactivity_timeout_ns (now - c.monotonic_ns)
      then err (contract command_stale)
      else ok tt

  -- The body of the second `try` of `accept`: the feedback and the time, if all tests pass.
  unfoldable pub validate_command :
      Session F
      → CommandEnvelope F
      → Value F
      → Received (VectorFields F)
      → Result Raised (NamedJointVector F × ℕ)
  unfolding first_command
  validate_command s c now_ns feedback = do
    action ← validate_named_values fl feature_names (as_mapping c.action)
    now ←
        validate_contiguous_command fl c s.previous_sequence s.previous_command_monotonic_ns now_ns
    fresh s now c
    snapshot ← validate_feedback fl s now feedback
    first_if s.previous_sequence (first_command s c snapshot)
    ok (snapshot, now)
