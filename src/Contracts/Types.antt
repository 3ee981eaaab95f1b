-- ===== src/Contracts/Types.antt =====
-- The records of contracts.py, and what its checks raise.
use vlai_l1_runtime.Prelude.{ℕ, String, List}
use vlai_l1_runtime.Prelude.Value.{Value, Received}

-- One constructor for each `raise ContractError(...)` that the session can meet.
pub data ContractError : Type 0 where
  bad_source_sequence bad_metadata_time metadata_type metadata_incomplete : ContractError
  names_empty names_repeated names_unknown names_order : ContractError
  sides_empty sides_invalid sides_order : ContractError
  not_a_mapping key_not_text feature_mismatch : ContractError
  not_numeric not_finite : String → ContractError
  lease_not_normalized bad_sequence bad_command_time : ContractError
  feedback_type feedback_incomplete command_type command_incomplete : ContractError
  bad_now bad_previous_sequence bad_previous_time : ContractError
  not_contiguous : ℕ → ℕ → ContractError
  command_time_not_increasing command_in_future : ContractError
  bad_tolerance : ContractError
  hold_mismatch : String → ContractError
  command_stale no_previous_feedback feedback_sequence_not_increasing : ContractError
  feedback_time_not_increasing feedback_in_future feedback_stale : ContractError
  feedback_before_lease command_before_feedback : ContractError

-- `float(value)` of a huge int raises OverflowError, which is no ContractError.
pub data Raised : Type 0 where
  contract : ContractError → Raised
  overflow_error : Raised

pub record SampleMetadata : Type 0 where
  pub source_sequence : ℕ
  pub monotonic_ns : ℕ

-- A mapping argument, its items in order; or a value that is no `Mapping`.
pub data Mapping (F : Type 0) : Type 0 where
  mapping : List (Value F × Value F) → Mapping F
  not_mapping : Mapping F

pub record NamedJointVector (F : Type 0) : Type 0 where
  pub values : List (String × F)
  pub metadata : SampleMetadata
  pub feature_names : List String

pub record CommandEnvelope (F : Type 0) : Type 0 where
  pub lease_id : String
  pub sequence : ℕ
  pub monotonic_ns : ℕ
  pub action : List (String × F)

-- The attributes of an object before its class has checked them.
pub record MetadataFields (F : Type 0) : Type 0 where
  pub source_sequence : Value F
  pub monotonic_ns : Value F

pub record VectorFields (F : Type 0) : Type 0 where
  pub values : Mapping F
  pub metadata : Received (MetadataFields F)
  pub feature_names : List String

pub record CommandFields (F : Type 0) : Type 0 where
  pub lease_id : Value F
  pub sequence : Value F
  pub monotonic_ns : Value F
  pub action : Mapping F
