-- ===== src/Session/Snapshots.antt =====
-- A checked command, and the feedback as it was read, pass their checks again.
use vlai_l1_runtime.Prelude.{◌≡◌, true, arith, inl, inr}
use vlai_l1_runtime.Prelude.Result.{ok, Result-cases}
use vlai_l1_runtime.Prelude.Text.{is_normalized}
use vlai_l1_runtime.Prelude.Value.{Floats, Received, instance_of, foreign, incomplete}
use vlai_l1_runtime.Contracts.{
  CommandEnvelope, NamedJointVector, VectorFields, CommandFields, Mapping,
  snapshot_command_envelope, snapshot_named_joint_vector, received_command, validate_named_values,
  as_mapping, feature_names, validate_feature_names,
}
use vlai_l1_runtime.Contracts.Laws.{validate_feature_names-unique, validate_named_values-exact}

module _ (fl : Floats) where
  open fl use {F}

  command_action :
      (o : Received (CommandFields F)) (c : CommandEnvelope F)
      → snapshot_command_envelope fl o ≡ ok c
      → (is_normalized c.lease_id ≡ true)
        × ((m : Mapping F) × (validate_named_values fl feature_names m ≡ ok c.action))
  unfolding snapshot_command_envelope
  command_action (instance_of fields) c h =
      elim (Result-cases (validate_named_values fl feature_names fields.action)) [
        | inl (r, e) ↦ (ground (arith, e), (fields.action, ground (arith, e)))
        | inr (x, e) ↦ absurd (ground (arith, e))
      ]
  command_action incomplete c h = absurd (ground arith)
  command_action foreign c h = absurd (ground arith)

  -- A checked command passes its constructor again.
  pub snapshot_command_envelope_again :
      (o : Received (CommandFields F)) (c : CommandEnvelope F)
      → snapshot_command_envelope fl o ≡ ok c
      → (snapshot_command_envelope fl (received_command c) ≡ ok c)
        × (validate_named_values fl feature_names (as_mapping c.action) ≡ ok c.action)
  unfolding snapshot_command_envelope
  snapshot_command_envelope_again o c h =
      let (normal, action) = command_action o c h in
      let (exact, finite, again) =
        validate_named_values-exact fl feature_names action.0 c.action action.1 in
      (ground (arith, normal, again), again)

  pub feedback_values :
      (o : Received (VectorFields F)) (f : NamedJointVector F)
      → snapshot_named_joint_vector fl o ≡ ok f
      → validate_named_values fl feature_names (as_mapping f.values) ≡ ok f.values
  unfolding snapshot_named_joint_vector
  feedback_values (instance_of fields) f h =
      elim (Result-cases (validate_feature_names feature_names)) [
        | inl (names, valid) ↦
            let same = (validate_feature_names-unique feature_names names valid).0 in
            elim (Result-cases (validate_named_values fl feature_names fields.values)) [
              | inl (r, e) ↦
                  let exact = validate_named_values-exact fl feature_names fields.values r e in
                  ground (arith, valid, same, e, exact.2)
              | inr (x, e) ↦ absurd (ground (arith, valid, same, e))
            ]
        | inr (x, failed) ↦ absurd (ground (arith, failed))
      ]
  feedback_values incomplete f h = absurd (ground arith)
  feedback_values foreign f h = absurd (ground arith)
