-- ===== src/Session/State.antt =====
-- The state of a `CommandSession`, and the two functions that clear it.
use vlai_l1_runtime.Prelude.{ℕ, String, Bool, Option, none, some}
use vlai_l1_runtime.Contracts.{ContractError}

pub data SessionMode : Type 0 where
  disconnected read_only command : SessionMode

-- `release_reason`: the texts that the code writes, and the reason that a client gives.
pub data Reason : Type 0 where
  requested : String → Reason
  invalid_command : ContractError → Reason
  invalid_release_reason lease_mismatch non_monotonic_heartbeat invalid_session_time : Reason
  incomplete_command_state non_monotonic_session_time : Reason
  liveness_timeout command_inactivity_timeout : Reason

-- One constructor for each `raise SessionError(...)`; OverflowError passes through uncaught.
pub data Failure : Type 0 where
  bad_time already_connected not_read_only not_ready bad_lease_id : Failure
  violation : ContractError → Failure
  measured_in_future measured_too_old : Failure
  lease_released : Option Reason → Failure
  heartbeat_backwards not_active lease_differs bad_reason : Failure
  overflow : Failure

-- `_SessionPolicy`
pub record Policy (F : Type 0) : Type 0 where
  pub command_ready : Bool
  pub liveness_timeout_ns : ℕ
  pub command_inactivity_timeout_ns : ℕ
  pub first_command_hold_tolerance_deg : F

pub record Session (F : Type 0) : Type 0 where
  pub policy : Policy F
  pub mode : SessionMode
  pub lease_id : Option String
  pub last_heartbeat_ns : Option ℕ
  pub last_command_accepted_ns : Option ℕ
  pub previous_sequence : Option ℕ
  pub previous_command_monotonic_ns : Option ℕ
  pub release_reason : Option Reason
  pub previous_feedback_sequence : Option ℕ
  pub previous_feedback_monotonic_ns : Option ℕ
  pub lease_acquired_ns : Option ℕ

-- `_initialize`
unfoldable pub initialize : {F : Type 0} → Policy F → Session F
initialize p = record {
  policy = p;
  mode = disconnected;
  lease_id = none;
  last_heartbeat_ns = none;
  last_command_accepted_ns = none;
  previous_sequence = none;
  previous_command_monotonic_ns = none;
  release_reason = none;
  previous_feedback_sequence = none;
  previous_feedback_monotonic_ns = none;
  lease_acquired_ns = none;
}

-- `_clear_command_state`
unfoldable pub clear_command_state : {F : Type 0} → Session F → Session F
clear_command_state s = record s {
  lease_id = none;
  last_heartbeat_ns = none;
  last_command_accepted_ns = none;
  previous_sequence = none;
  previous_command_monotonic_ns = none;
  previous_feedback_sequence = none;
  previous_feedback_monotonic_ns = none;
  lease_acquired_ns = none;
}

-- `_fail_closed`
unfoldable pub fail_closed : {F : Type 0} → Reason → Session F → Session F
unfolding clear_command_state
fail_closed reason s = record (clear_command_state (record s { release_reason = some reason })) {
  mode = read_only;
}

abbrev pub is_command : SessionMode → Bool
is_command command = Bool.true
is_command _ = Bool.false

abbrev pub is_read_only : SessionMode → Bool
is_read_only read_only = Bool.true
is_read_only _ = Bool.false

abbrev pub is_disconnected : SessionMode → Bool
is_disconnected disconnected = Bool.true
is_disconnected _ = Bool.false
