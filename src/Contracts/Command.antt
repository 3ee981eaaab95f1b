-- ===== src/Contracts/Command.antt =====
-- Constructors and snapshots of the contract objects, and the checks of a command.
use vlai_l1_runtime.Prelude.{
  ℕ, ◌+◌, String, Bool, false, not, ◌||◌, Option, none, some, List, [], ◌∷◌, ltb, leb, ◌==◌,
  if◌then◌else◌,
}
use vlai_l1_runtime.Prelude.Result.{Result, ok, err, ◌>>=◌}
use vlai_l1_runtime.Prelude.Int.{pos}
use vlai_l1_runtime.Prelude.Text.{is_normalized}
use vlai_l1_runtime.Prelude.Value.{
  Floats, Value, int, text, natural, Received, instance_of, incomplete, foreign,
}
use vlai_l1_runtime.Contracts.Types.{
  ContractError, bad_source_sequence, bad_metadata_time, metadata_type, metadata_incomplete,
  lease_not_normalized, bad_sequence, bad_command_time, feedback_type, feedback_incomplete,
  command_type, command_incomplete, bad_now, not_contiguous, command_time_not_increasing,
  command_in_future, bad_tolerance, hold_mismatch, Raised, contract, SampleMetadata,
  NamedJointVector, CommandEnvelope, MetadataFields, VectorFields, CommandFields,
}
use vlai_l1_runtime.Contracts.Features.{feature_names, validate_feature_names}
use vlai_l1_runtime.Contracts.Values.{lookup, raising, as_mapping, validate_named_values}

-- `if isinstance(v, bool) or not isinstance(v, int) or v < 0: raise ContractError(...)`
abbrev pub require_natural : {F : Type 0} → Value F → ContractError → Result Raised ℕ
require_natural v e = elim (natural v) [ none ↦ err (contract e) | some n ↦ ok n ]

-- `SampleMetadata.__post_init__`
unfoldable pub make_sample_metadata : {F : Type 0} → MetadataFields F → Result Raised SampleMetadata
make_sample_metadata m = do
  source_sequence ← require_natural m.source_sequence bad_source_sequence
  monotonic_ns ← require_natural m.monotonic_ns bad_metadata_time
  ok (record { source_sequence = source_sequence; monotonic_ns = monotonic_ns })

unfoldable pub snapshot_sample_metadata :
    {F : Type 0} → Received (MetadataFields F) → Result Raised SampleMetadata
unfolding make_sample_metadata
snapshot_sample_metadata foreign = err (contract metadata_type)
snapshot_sample_metadata incomplete = err (contract metadata_incomplete)
snapshot_sample_metadata (instance_of m) = make_sample_metadata m

-- `not isinstance(lease_id, str) or not lease_id or lease_id != lease_id.strip()`
unfoldable pub require_normalized : {F : Type 0} → Value F → Option String
require_normalized (text s) = if is_normalized s then some s else none
require_normalized _ = none

abbrev require_lease_id : {F : Type 0} → Value F → Result Raised String
require_lease_id v = elim (require_normalized v) [
  | none ↦ err (contract lease_not_normalized)
  | some s ↦ ok s
]

abbrev pub expected_sequence : Option ℕ → ℕ
expected_sequence none = 0
expected_sequence (some n) = n + 1

abbrev pub not_after : ℕ → Option ℕ → Bool
not_after t none = false
not_after t (some previous) = leb t previous

-- A checked command, handed on to a function that takes a copy of its own.
abbrev pub received_command : {F : Type 0} → CommandEnvelope F → Received (CommandFields F)
received_command c = instance_of (record {
  lease_id = text c.lease_id;
  sequence = int (pos c.sequence);
  monotonic_ns = int (pos c.monotonic_ns);
  action = as_mapping c.action;
})

module _ (fl : Floats) where
  open fl use {F, is_finite, distance, lt, zero_value}

  -- `NamedJointVector.__post_init__`
  unfoldable pub make_named_joint_vector : VectorFields F → Result Raised (NamedJointVector F)
  unfolding snapshot_sample_metadata
  make_named_joint_vector v = do
    metadata ← snapshot_sample_metadata v.metadata
    names ← raising (validate_feature_names v.feature_names)
    values ← validate_named_values fl names v.values
    ok (record { values = values; metadata = metadata; feature_names = names })

  -- `CommandEnvelope.__post_init__`
  unfoldable pub make_command_envelope : CommandFields F → Result Raised (CommandEnvelope F)
  unfolding require_normalized
  make_command_envelope c = do
    lease_id ← require_lease_id c.lease_id
    sequence ← require_natural c.sequence bad_sequence
    monotonic_ns ← require_natural c.monotonic_ns bad_command_time
    action ← validate_named_values fl feature_names c.action
    ok (record {
      lease_id = lease_id;
      sequence = sequence;
      monotonic_ns = monotonic_ns;
      action = action;
    })

  -- The copy has the default feature names, not the vector's own.
  unfoldable pub snapshot_named_joint_vector :
      Received (VectorFields F) → Result Raised (NamedJointVector F)
  unfolding make_named_joint_vector
  snapshot_named_joint_vector foreign = err (contract feedback_type)
  snapshot_named_joint_vector incomplete = err (contract feedback_incomplete)
  snapshot_named_joint_vector (instance_of v) =
      make_named_joint_vector (record v { feature_names = feature_names })

  unfoldable pub snapshot_command_envelope :
      Received (CommandFields F) → Result Raised (CommandEnvelope F)
  unfolding make_command_envelope
  snapshot_command_envelope foreign = err (contract command_type)
  snapshot_command_envelope incomplete = err (contract command_incomplete)
  snapshot_command_envelope (instance_of c) = make_command_envelope c

  -- The checked time comes back. The session keeps `previous_*` as numbers or None, so the tests
  -- of their types have no branch here.
  unfoldable pub validate_contiguous_command :
      CommandEnvelope F → Option ℕ → Option ℕ → Value F → Result Raised ℕ
  unfolding snapshot_command_envelope
  validate_contiguous_command original previous_sequence previous_monotonic_ns now_ns = do
    command ← snapshot_command_envelope (received_command original)
    now ← require_natural now_ns bad_now
    if not (command.sequence == expected_sequence previous_sequence)
        then err (contract (not_contiguous (expected_sequence previous_sequence) command.sequence))
        else if not_after command.monotonic_ns previous_monotonic_ns
        then err (contract command_time_not_increasing)
        else if ltb now command.monotonic_ns
        then err (contract command_in_future)
        else ok now

  abbrev strays : F → Option F → Option F → Bool
  strays tolerance (some a) (some b) = lt tolerance (distance a b)
  strays tolerance _ _ = false

  unfoldable pub hold_loop :
      F → List String → List (String × F) → List (String × F) → Result Raised (Unit {0})
  unfolding lookup
  hold_loop tolerance [] candidate reference = ok tt
  hold_loop tolerance (name ∷ names) candidate reference =
      let rest = hold_loop tolerance names candidate reference in
      if strays tolerance (lookup name candidate) (lookup name reference)
      then err (contract (hold_mismatch name))
      else rest

  unfoldable pub validate_first_command_hold :
      List (String × F) → List (String × F) → F → Result Raised (Unit {0})
  unfolding hold_loop
  validate_first_command_hold action measured tolerance_deg =
      if not (is_finite tolerance_deg) || lt tolerance_deg zero_value
      then err (contract bad_tolerance)
      else do
        candidate ← validate_named_values fl feature_names (as_mapping action)
        reference ← validate_named_values fl feature_names (as_mapping measured)
        hold_loop tolerance_deg feature_names candidate reference
