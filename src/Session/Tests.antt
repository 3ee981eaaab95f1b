-- ===== src/Session/Tests.antt =====
-- A lease on a running session: two commands, a refused one, time-outs and a blocked configuration.
use vlai_l1_runtime.Prelude.{
  String, ℕ, ◌≡◌, ◌≢◌, refl, Bool, true, false, none, some, List, [], ◌∷◌, map, arith,
}
use vlai_l1_runtime.Prelude.Int.{pos}
use vlai_l1_runtime.Prelude.Result.{ok, err}
use vlai_l1_runtime.Prelude.Naturals.{naturals}
use vlai_l1_runtime.Prelude.Value.{Value, int, text, Received, instance_of}
use vlai_l1_runtime.Contracts.{
  not_contiguous, Mapping, mapping, NamedJointVector, CommandEnvelope, VectorFields, CommandFields,
  feature_names, snapshot_command_envelope, snapshot_named_joint_vector,
}
use vlai_l1_runtime.Session.State.{
  Session, Policy, command, read_only, initialize, violation, Failure, overflow,
}
use vlai_l1_runtime.Session.Checks.{check_timeouts, validate_feedback}
use vlai_l1_runtime.Session.Commands.{validate_command, first_command}
use vlai_l1_runtime.Prelude.Text.{is_normalized}
use vlai_l1_runtime.Contracts.{
  validate_contiguous_command, validate_first_command_hold, as_mapping, validate_feature_names,
  validate_named_values,
}
use vlai_l1_runtime.Session.Methods.{
  admit, heartbeat, enter, accept, acquire_command, connect_read_only,
}
use vlai_l1_runtime.Session.Invariant.{IsCleared, IsWellFormed}
use vlai_l1_runtime.Session.Hold.{Near}
use vlai_l1_runtime.Session.Acceptable.{IsAcceptable}
use vlai_l1_runtime.Session.Acceptance.{Admission, with_command, accept-fails_closed, accept-ok}
use vlai_l1_runtime.Session.Events.{
  Call, connecting, acquiring, beating, accepting, run, run-IsWellFormed, idle-run,
}
use vlai_l1_runtime.Session.History.{InOrder, history, history-InOrder}
use vlai_l1_runtime.Session.Complete.{accept_complete}
use vlai_l1_runtime.Session.Timeouts.{Overdue, check_timeouts_exact, heartbeat_extends}
use vlai_l1_runtime.Session.Config.{SystemConfig, command_session}
use vlai_l1_runtime.Session.Blocked.{blocked-run_ne_command}

abbrev policy : Bool → Policy ℕ
policy ready = record {
  command_ready = ready;
  liveness_timeout_ns = 100;
  command_inactivity_timeout_ns = 50;
  first_command_hold_tolerance_deg = 5;
}

abbrev at : ℕ → Value ℕ
at n = int (pos n)

-- Every joint at `n` degrees.
abbrev pose : ℕ → Mapping ℕ
pose n = mapping (map (λ name. (text name, at n)) feature_names)

abbrev measured : (sequence time : ℕ) → Received (VectorFields ℕ)
measured sequence time = instance_of (record {
  values = pose 0;
  metadata = instance_of (record { source_sequence = at sequence; monotonic_ns = at time });
  feature_names = feature_names;
})

abbrev ordered : (sequence time : ℕ) → Received (CommandFields ℕ)
ordered sequence time = instance_of (record {
  lease_id = text "operator";
  sequence = at sequence;
  monotonic_ns = at time;
  action = pose 1;
})

abbrev taken : List (Call ℕ)
taken = connecting (at 5) ∷ acquiring (text "operator") (measured 3 10) (at 20) ∷ []

abbrev calls : List (Call ℕ)
calls =
    connecting (at 5)
    ∷ acquiring (text "operator") (measured 3 10) (at 20)
    ∷ accepting (ordered 0 30) (at 31) (measured 4 25)
    ∷ beating (text "operator") (at 35)
    ∷ accepting (ordered 1 40) (at 41) (measured 5 36)
    ∷ []

-- The session in command, before any of its commands.
abbrev in_command : Session ℕ
in_command = record {
  policy = policy true;
  mode = command;
  lease_id = some "operator";
  last_heartbeat_ns = some 20;
  last_command_accepted_ns = some 20;
  previous_sequence = none;
  previous_command_monotonic_ns = none;
  release_reason = none;
  previous_feedback_sequence = some 3;
  previous_feedback_monotonic_ns = some 10;
  lease_acquired_ns = some 20;
}

taken-in_command : run naturals taken (initialize (policy true)) ≡ in_command
unfolding run initialize feature_names acquire_command connect_read_only accept heartbeat enter
    check_timeouts history is_normalized snapshot_command_envelope snapshot_named_joint_vector
    validate_feature_names validate_named_values as_mapping admit validate_command
    validate_contiguous_command validate_feedback first_command validate_first_command_hold
taken-in_command = refl

run-IsWellFormed_example : IsWellFormed (run naturals calls (initialize (policy true)))
run-IsWellFormed_example = run-IsWellFormed naturals (policy true) calls

abbrev released : Session ℕ
released = record in_command { mode = read_only; lease_id = none }

abbrev late_calls : List (Call ℕ)
late_calls =
    accepting (ordered 1 40) (at 41) (measured 5 36) ∷ beating (text "operator") (at 45) ∷ []

released-idle : released.mode ≢ command
released-idle = ground arith

idle-run_example : (run naturals late_calls released).mode ≢ command
idle-run_example = idle-run naturals late_calls released refl released-idle

abbrev refusal : Failure
refusal = violation (not_contiguous 0 7)

wrong_number-refused :
    (accept naturals (ordered 7 30) (at 31) (measured 4 25) in_command).0 ≡ err refusal
unfolding run initialize feature_names acquire_command connect_read_only accept heartbeat enter
    check_timeouts history is_normalized snapshot_command_envelope snapshot_named_joint_vector
    validate_feature_names validate_named_values as_mapping admit validate_command
    validate_contiguous_command validate_feedback first_command validate_first_command_hold
wrong_number-refused = refl

refusal-differs : refusal ≢ overflow
refusal-differs = ground arith

accept-fails_closed_example :
    ((accept naturals (ordered 7 30) (at 31) (measured 4 25) in_command).1.mode ≡ read_only)
    × IsCleared (accept naturals (ordered 7 30) (at 31) (measured 4 25) in_command).1
accept-fails_closed_example =
    accept-fails_closed naturals (ordered 7 30) (at 31) (measured 4 25) in_command refusal refl
      wrong_number-refused refusal-differs

first-accepted : (accept naturals (ordered 0 30) (at 31) (measured 4 25) in_command).0 ≡ ok tt
unfolding run initialize feature_names acquire_command connect_read_only accept heartbeat enter
    check_timeouts history is_normalized snapshot_command_envelope snapshot_named_joint_vector
    validate_feature_names validate_named_values as_mapping admit validate_command
    validate_contiguous_command validate_feedback first_command validate_first_command_hold
first-accepted = refl

accept-ok_example :
    (c : CommandEnvelope ℕ) × (snapshot_command_envelope naturals (ordered 0 30) ≡ ok c)
    × (a : Admission naturals in_command c (at 31) (measured 4 25)) × ((accept naturals
          (ordered 0 30)
          (at 31)
          (measured 4 25)
          in_command).1
        ≡ with_command in_command c a.feedback a.now)
accept-ok_example =
    accept-ok naturals (ordered 0 30) (at 31) (measured 4 25) in_command first-accepted

abbrev checked_command : CommandEnvelope ℕ
checked_command = record {
  lease_id = "operator";
  sequence = 0;
  monotonic_ns = 30;
  action = map (λ name. (name, 1)) feature_names;
}

abbrev checked_feedback : NamedJointVector ℕ
checked_feedback = record {
  values = map (λ name. (name, 0)) feature_names;
  metadata = record { source_sequence = 4; monotonic_ns = 25 };
  feature_names = feature_names;
}

command-checked : snapshot_command_envelope naturals (ordered 0 30) ≡ ok checked_command
unfolding run initialize feature_names acquire_command connect_read_only accept heartbeat enter
    check_timeouts history is_normalized snapshot_command_envelope snapshot_named_joint_vector
    validate_feature_names validate_named_values as_mapping admit validate_command
    validate_contiguous_command validate_feedback first_command validate_first_command_hold
command-checked = refl

feedback-checked : snapshot_named_joint_vector naturals (measured 4 25) ≡ ok checked_feedback
unfolding run initialize feature_names acquire_command connect_read_only accept heartbeat enter
    check_timeouts history is_normalized snapshot_command_envelope snapshot_named_joint_vector
    validate_feature_names validate_named_values as_mapping admit validate_command
    validate_contiguous_command validate_feedback first_command validate_first_command_hold
feedback-checked = refl

lease-entered : enter {F = ℕ} (text "operator") (at 31) in_command ≡ (ok tt, in_command)
unfolding run initialize feature_names acquire_command connect_read_only accept heartbeat enter
    check_timeouts history is_normalized snapshot_command_envelope snapshot_named_joint_vector
    validate_feature_names validate_named_values as_mapping admit validate_command
    validate_contiguous_command validate_feedback first_command validate_first_command_hold
lease-entered = refl

-- Poses of ones and of zeros.
poses-Near :
    (names : List String)
    → Near naturals 5 (map (λ name. (name, 1)) names) (map (λ name. (name, 0)) names)
poses-Near [] = tt
poses-Near (name ∷ names) = (refl, refl, poses-Near names)

command-IsAcceptable : IsAcceptable naturals in_command checked_command (at 31) checked_feedback 31
unfolding run initialize feature_names acquire_command connect_read_only accept heartbeat enter
    check_timeouts history is_normalized snapshot_command_envelope snapshot_named_joint_vector
    validate_feature_names validate_named_values as_mapping admit validate_command
    validate_contiguous_command validate_feedback first_command validate_first_command_hold
command-IsAcceptable = record {
  contiguous = record { time = refl; next = refl; later = tt; past = omega arith };
  recent = omega arith;
  fresh = record {
    after = omega arith;
    later = omega arith;
    past = omega arith;
    recent = omega arith;
  };
  first = (λ none_yet. record {
    after_lease = omega arith;
    fed = omega arith;
    finite = refl;
    not_negative = refl;
    near = poses-Near feature_names;
  });
}

accept_complete_example :
    accept naturals (ordered 0 30) (at 31) (measured 4 25) in_command
    ≡ (ok tt, with_command in_command checked_command checked_feedback 31)
accept_complete_example =
    accept_complete naturals (ordered 0 30) checked_command (at 31) 31 (measured 4 25)
      checked_feedback in_command command-checked feedback-checked lease-entered
      command-IsAcceptable

calls-command : (run naturals calls (initialize (policy true))).mode ≡ command
unfolding run initialize feature_names acquire_command connect_read_only accept heartbeat enter
    check_timeouts history is_normalized snapshot_command_envelope snapshot_named_joint_vector
    validate_feature_names validate_named_values as_mapping admit validate_command
    validate_contiguous_command validate_feedback first_command validate_first_command_hold
calls-command = refl

history-InOrder_example :
    InOrder naturals
      (run naturals calls (initialize (policy true)))
      (history naturals calls (initialize (policy true)) [])
history-InOrder_example = history-InOrder naturals (policy true) calls calls-command

-- The two commands of the session, newest first.
calls-history : history naturals calls (initialize (policy true)) [] ≡ 1 ∷ 0 ∷ []
unfolding run initialize feature_names acquire_command connect_read_only accept heartbeat enter
    check_timeouts history is_normalized snapshot_command_envelope snapshot_named_joint_vector
    validate_feature_names validate_named_values as_mapping admit validate_command
    validate_contiguous_command validate_feedback first_command validate_first_command_hold
calls-history = refl

check_timeouts_exact_example :
    (Overdue (policy true) 20 20 71
      → ((check_timeouts {F = ℕ} (at 71) in_command).0 ≡ ok true)
        × ((check_timeouts {F = ℕ} (at 71) in_command).1.mode ≡ read_only)
        × IsCleared (check_timeouts {F = ℕ} (at 71) in_command).1)
    × (¬ Overdue (policy true) 20 20 71
        → check_timeouts {F = ℕ} (at 71) in_command ≡ (ok false, in_command))
check_timeouts_exact_example = check_timeouts_exact 71 20 20 in_command refl refl refl

timely : ¬ Overdue (policy true) 20 20 60
timely = ground arith

heartbeat_extends_example :
    check_timeouts (at 65) (heartbeat {F = ℕ} (text "operator") (at 60) in_command).1
    ≡ (ok false, record in_command { last_heartbeat_ns = some 60 })
heartbeat_extends_example =
    heartbeat_extends "operator" 60 65 20 20 in_command refl refl refl refl timely (omega arith)
      (omega arith) (omega arith)

abbrev blocked : SystemConfig ℕ
blocked = record {
  loader_validated = true;
  command_blockers = "gravity model is not measured" ∷ [];
  command_ready = false;
  session_liveness_timeout_ns = pos 100;
  command_inactivity_timeout_ns = pos 50;
  first_command_hold_tolerance_deg = 5;
}

blocked-made : command_session naturals blocked ≡ ok (initialize (policy false))
unfolding command_session
blocked-made = refl

blocked-run_ne_command_example : (run naturals calls (initialize (policy false))).mode ≢ command
blocked-run_ne_command_example =
    blocked-run_ne_command naturals blocked "gravity model is not measured" []
      (initialize (policy false)) calls refl blocked-made
