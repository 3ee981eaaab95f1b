-- ===== src/Session/Complete.antt =====
-- `accept` refuses no command that satisfies its conditions.
use vlai_l1_runtime.Prelude.{ℕ, ◌≡◌, Option, none, Option-cases, arith, inl, inr}
use vlai_l1_runtime.Prelude.Result.{ok}
use vlai_l1_runtime.Prelude.Value.{Floats, Value, text, Received}
use vlai_l1_runtime.Contracts.{
  CommandEnvelope, NamedJointVector, VectorFields, CommandFields, snapshot_command_envelope,
  snapshot_named_joint_vector, received_command, validate_contiguous_command, validate_named_values,
  as_mapping, feature_names,
}
use vlai_l1_runtime.Session.Snapshots.{snapshot_command_envelope_again, feedback_values}
use vlai_l1_runtime.Session.State.{Session}
use vlai_l1_runtime.Session.Checks.{validate_feedback}
use vlai_l1_runtime.Session.Commands.{first_if, first_command, validate_command}
use vlai_l1_runtime.Session.Methods.{enter, admit, accept, record_accepted}
use vlai_l1_runtime.Session.Hold.{IsHeld, first_command-IsHeld}
use vlai_l1_runtime.Session.Acceptance.{with_command}
use vlai_l1_runtime.Session.Acceptable.{IsContiguous, IsFresh, IsAcceptable}

module _ (fl : Floats) where
  open fl use {F}

  contiguous_complete :
      (c : CommandEnvelope F) (q t : Option ℕ) (now_ns : Value F) (now : ℕ)
      → snapshot_command_envelope fl (received_command c) ≡ ok c
      → IsContiguous fl c q t now_ns now
      → validate_contiguous_command fl c q t now_ns ≡ ok now
  unfolding validate_contiguous_command
  contiguous_complete c q t now_ns now again h = ground arith

  feedback_complete :
      (s : Session F) (now : ℕ) (o : Received (VectorFields F)) (f : NamedJointVector F)
      → snapshot_named_joint_vector fl o ≡ ok f
      → IsFresh fl s f now
      → validate_feedback fl s now o ≡ ok f
  unfolding validate_feedback
  feedback_complete s now o f read h = ground (arith, feedback_values fl o f read)

  first_complete :
      (s : Session F) (c : CommandEnvelope F) (f : NamedJointVector F)
      → validate_named_values fl feature_names (as_mapping c.action) ≡ ok c.action
      → validate_named_values fl feature_names (as_mapping f.values) ≡ ok f.values
      → (s.previous_sequence ≡ none → IsHeld fl s c f)
      → first_if s.previous_sequence (first_command fl s c f) ≡ ok tt
  first_complete s c f valid measured held = elim (Option-cases s.previous_sequence) [
    | inl none_yet ↦
        let passed = (first_command-IsHeld fl s c f valid measured).1 (held none_yet) in
        ground (arith, none_yet, passed)
    | inr (n, some_before) ↦ ground (arith, some_before)
  ]

  -- In a lease that has not run out, a well-formed command and feedback that satisfy the conditions
  -- of `accept-ok` are accepted, and the session keeps their numbers and times.
  pub accept_complete :
      (o : Received (CommandFields F)) (c : CommandEnvelope F) (now_ns : Value F) (now : ℕ)
      (feedback : Received (VectorFields F)) (f : NamedJointVector F) (s : Session F)
      → snapshot_command_envelope fl o ≡ ok c
      → snapshot_named_joint_vector fl feedback ≡ ok f
      → enter (text c.lease_id) now_ns s ≡ (ok tt, s)
      → IsAcceptable fl s c now_ns f now
      → accept fl o now_ns feedback s ≡ (ok tt, with_command s c f now)
  unfolding accept admit validate_command record_accepted
  accept_complete o c now_ns now feedback f s read read_feedback entered h =
      let (again, action) = snapshot_command_envelope_again fl o c read in
      ground (
        arith,
        action,
        contiguous_complete c s.previous_sequence s.previous_command_monotonic_ns now_ns now again
            h.contiguous,
        feedback_complete s now feedback f read_feedback h.fresh,
        first_complete s c f action (feedback_values fl feedback f read_feedback) h.first,
      )
