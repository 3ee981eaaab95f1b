-- ===== src/Session/Acceptable.antt =====
-- What the checks of `accept` and `acquire_command` have established when they pass.
use vlai_l1_runtime.Prelude.{ℕ, ◌+◌, ◌<◌, none, ◌-◌, ◌≤◌, ◌≡◌, Option, some, arith, inl, inr, Past}
use vlai_l1_runtime.Prelude.Result.{ok, Result-cases}
use vlai_l1_runtime.Prelude.Value.{Floats, Value, natural, Received}
use vlai_l1_runtime.Contracts.{
  NamedJointVector, VectorFields, CommandEnvelope, CommandFields, snapshot_command_envelope,
  received_command, snapshot_named_joint_vector, validate_named_values, feature_names, as_mapping,
  validate_contiguous_command,
}
use vlai_l1_runtime.Session.Snapshots.{snapshot_command_envelope_again, feedback_values}
use vlai_l1_runtime.Session.Hold.{IsHeld, first_command-IsHeld}
use vlai_l1_runtime.Session.State.{Session}
use vlai_l1_runtime.Session.Checks.{validate_feedback}
use vlai_l1_runtime.Session.Commands.{first_if, first_command, validate_command}

-- The first number is 0, each other one follows the one before.
abbrev pub IsNext : Option ℕ → ℕ → Type 0
IsNext none n = n ≡ 0
IsNext (some previous) n = n ≡ previous + 1

abbrev pub IsLater : Option ℕ → ℕ → Type 0
IsLater none t = Unit {0}
IsLater (some previous) t = previous < t

module _ (fl : Floats) where
  open fl use {F}

  -- The copy of a checked command has its number and its time.
  pub snapshot-received_command :
      (c c' : CommandEnvelope F)
      → snapshot_command_envelope fl (received_command c) ≡ ok c'
      → (c'.sequence ≡ c.sequence) × (c'.monotonic_ns ≡ c.monotonic_ns)
  unfolding snapshot_command_envelope
  snapshot-received_command c c' h = ground arith

  pub record IsContiguous (c : CommandEnvelope F) (previous_sequence previous_time : Option ℕ)
      (now_ns : Value F) (now : ℕ) : Type 0 where
    pub time : natural now_ns ≡ some now
    pub next : IsNext previous_sequence c.sequence
    pub later : IsLater previous_time c.monotonic_ns
    pub past : c.monotonic_ns ≤ now

  pub validate_contiguous_command-IsContiguous :
      (c : CommandEnvelope F) (q t : Option ℕ) (now_ns : Value F) (now : ℕ)
      → validate_contiguous_command fl c q t now_ns ≡ ok now
      → IsContiguous c q t now_ns now
  unfolding validate_contiguous_command
  validate_contiguous_command-IsContiguous c q t now_ns now h =
      elim (Result-cases (snapshot_command_envelope fl (received_command c))) [
        | inl (c', e) ↦ ground (arith, e, snapshot-received_command c c' e)
        | inr (x, e) ↦ cc
      ]

  pub record IsFresh (s : Session F) (f : NamedJointVector F) (now : ℕ) : Type 0 where
    pub after : Past s.previous_feedback_sequence f.metadata.source_sequence
    pub later : Past s.previous_feedback_monotonic_ns f.metadata.monotonic_ns
    pub past : f.metadata.monotonic_ns ≤ now
    pub recent : now - f.metadata.monotonic_ns ≤ s.policy.command_inactivity_timeout_ns

  pub validate_feedback-IsFresh :
      (s : Session F) (now : ℕ) (feedback : Received (VectorFields F)) (f : NamedJointVector F)
      → validate_feedback fl s now feedback ≡ ok f
      → IsFresh s f now
  unfolding validate_feedback
  validate_feedback-IsFresh s now feedback f h = ground arith

  pub record IsAcceptable (s : Session F) (c : CommandEnvelope F) (now_ns : Value F)
      (f : NamedJointVector F) (now : ℕ) : Type 0 where
    pub contiguous : IsContiguous c s.previous_sequence s.previous_command_monotonic_ns now_ns now
    pub recent : now - c.monotonic_ns ≤ s.policy.command_inactivity_timeout_ns
    pub fresh : IsFresh s f now
    pub first : s.previous_sequence ≡ none → IsHeld fl s c f

  -- What `validate_command` has passed, with the feedback that it read.
  pub record Validated (s : Session F) (c : CommandEnvelope F) (now_ns : Value F)
      (feedback : Received (VectorFields F)) (f : NamedJointVector F) (now : ℕ) : Type 0 where
    pub contiguous : IsContiguous c s.previous_sequence s.previous_command_monotonic_ns now_ns now
    pub recent : now - c.monotonic_ns ≤ s.policy.command_inactivity_timeout_ns
    pub fresh : IsFresh s f now
    pub read : snapshot_named_joint_vector fl feedback ≡ ok f
    pub first : first_if s.previous_sequence (first_command fl s c f) ≡ ok tt

  validate_feedback_read :
      (s : Session F) (now : ℕ) (feedback : Received (VectorFields F)) (f : NamedJointVector F)
      → validate_feedback fl s now feedback ≡ ok f
      → snapshot_named_joint_vector fl feedback ≡ ok f
  unfolding validate_feedback
  validate_feedback_read s now feedback f h = ground arith

  pub validate_command-Validated :
      (s : Session F) (c : CommandEnvelope F) (now_ns : Value F)
      (feedback : Received (VectorFields F)) (f : NamedJointVector F) (now : ℕ)
      → validate_command fl s c now_ns feedback ≡ ok (f, now)
      → Validated s c now_ns feedback f now
  unfolding validate_command
  validate_command-Validated s c now_ns feedback f now h =
      elim (Result-cases (
        validate_contiguous_command fl c s.previous_sequence s.previous_command_monotonic_ns
          now_ns)) [
            | inl (n, timed) ↦ elim (Result-cases (validate_feedback fl s n feedback)) [
              | inl (g, fed) ↦ ground (
                arith,
                timed,
                fed,
                validate_contiguous_command-IsContiguous c _ _ now_ns n timed,
                validate_feedback-IsFresh s n feedback g fed,
                validate_feedback_read s n feedback g fed,
              )
              | inr (x, failed) ↦ ground (arith, timed, failed)
            ]
            | inr (x, failed) ↦ ground (arith, failed)
          ]

  first-IsHeld :
      (s : Session F) (c : CommandEnvelope F) (f : NamedJointVector F)
      → validate_named_values fl feature_names (as_mapping c.action) ≡ ok c.action
      → validate_named_values fl feature_names (as_mapping f.values) ≡ ok f.values
      → first_if s.previous_sequence (first_command fl s c f) ≡ ok tt
      → s.previous_sequence ≡ none
      → IsHeld fl s c f
  first-IsHeld s c f valid measured passed none_yet =
      (first_command-IsHeld fl s c f valid measured).0 (ground (arith, none_yet))

  -- A command that was read from what `accept` received, and that `validate_command` lets pass, is
  -- acceptable with the feedback that was read.
  pub validate_command-IsAcceptable :
      (s : Session F) (o : Received (CommandFields F)) (c : CommandEnvelope F) (now_ns : Value F)
      (feedback : Received (VectorFields F)) (f : NamedJointVector F) (now : ℕ)
      → snapshot_command_envelope fl o ≡ ok c
      → validate_command fl s c now_ns feedback ≡ ok (f, now)
      → IsAcceptable s c now_ns f now × (snapshot_named_joint_vector fl feedback ≡ ok f)
  validate_command-IsAcceptable s o c now_ns feedback f now read h =
      let v = validate_command-Validated s c now_ns feedback f now h in
      (
        record {
          contiguous = v.contiguous;
          recent = v.recent;
          fresh = v.fresh;
          first =
              first-IsHeld s c f (snapshot_command_envelope_again fl o c read).1
                (feedback_values fl feedback f v.read) v.first;
        },
        v.read,
      )
