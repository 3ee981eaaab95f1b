-- ===== src/Collection/Prepared.antt =====
-- What a sample satisfies that passes the checks before the cameras' own.
use vlai_l1_runtime.Prelude.{
  ℕ, ◌-◌, ◌≤◌, ◌<◌, ◌≡◌, refl, ap, subst, ◌∙◌, Bool, true, false, Option, none, some, List, inl,
  inr, arith, Option-cases,
}
use vlai_l1_runtime.Prelude.Int.{pos}
use vlai_l1_runtime.Prelude.Result.{ok, Result-cases}
use vlai_l1_runtime.Prelude.Value.{Floats, Value, natural}
use vlai_l1_runtime.Contracts.{names_eq, keys}
use vlai_l1_runtime.Collection.Images.{Images}
use vlai_l1_runtime.Collection.Contract.{
  CollectionError, observation_sequence, action_sequence, ft_sequence, names_of,
}
use vlai_l1_runtime.Collection.Sample.{CollectionSample, FtSample, ScaleSample}
use vlai_l1_runtime.Collection.Checks.{
  Seconds, Assembler, Stamp, Prepared, gap, not_backward, require_increasing_sequence, check_joints,
  check_ft, check_scale, prepare,
}

-- Greater than the last one, and not less, if there was one.
abbrev pub Above : Option ℕ → ℕ → Type 0
Above none n = Unit
Above (some last) n = last < n

abbrev pub NotBelow : Option ℕ → ℕ → Type 0
NotBelow none n = Unit
NotBelow (some last) n = last ≤ n

not_backward-NotBelow : (last : Option ℕ) (n : ℕ) → not_backward last n ≡ true → NotBelow last n
not_backward-NotBelow none n h = tt
not_backward-NotBelow (some m) n h = ground arith

require_increasing_sequence-Above :
    (value : ℕ) (previous : Option ℕ) (e : CollectionError)
    → require_increasing_sequence value previous e ≡ ok tt
    → Above previous value
unfolding require_increasing_sequence
require_increasing_sequence-Above value none e h = tt
require_increasing_sequence-Above value (some last) e h = ground arith

module _ (fl : Floats) (tm : Seconds fl.F) where
  open fl use {F}

  pub record HasJoints {im : Images} (s : Assembler F) (sample : CollectionSample im F) (now : ℕ)
      : Type 0 where
    pub observation_fresh :
        tm.is_fresh
          (tm.seconds (pos sample.observation.metadata.monotonic_ns))
          (tm.seconds (pos now))
          s.config.max_sample_age_s
        ≡ true
    pub action_fresh :
        tm.is_fresh
          (tm.seconds (pos sample.action.metadata.monotonic_ns))
          (tm.seconds (pos now))
          s.config.max_sample_age_s
        ≡ true
    pub paired :
        tm.is_paired
          (tm.seconds (pos sample.observation.metadata.monotonic_ns))
          (tm.seconds (pos sample.action.metadata.monotonic_ns))
          s.config.max_state_action_skew_s
        ≡ true
    pub observation_new :
        Above s.last_observation_sequence sample.observation.metadata.source_sequence
    pub action_new : Above s.last_action_sequence sample.action.metadata.source_sequence
    pub observation_names : names_eq sample.observation.feature_names (names_of s.config) ≡ true
    pub action_names : names_eq sample.action.feature_names (names_of s.config) ≡ true

  pub record HasFt (s : Assembler F) (sample : Option (FtSample F)) (robot now : ℕ) (ft : Stamp)
      : Type 0 where
    pub of_sample :
        (f : FtSample F) × (sample ≡ some f)
        × (natural f.monotonic_ns ≡ some ft.time)
        × (natural f.sequence ≡ some ft.sequence)
    pub past : ft.time ≤ now
    pub fresh : tm.exceeds (now - ft.time) s.config.max_sample_age_s ≡ false
    pub close : tm.exceeds (gap ft.time robot) s.config.max_ft_skew_s ≡ false
    pub new : Above s.last_ft_sequence ft.sequence

  pub record HasScale (s : Assembler F) (sample : Option (ScaleSample F)) (robot now : ℕ)
      (scale : Stamp) : Type 0 where
    pub of_sample :
        (f : ScaleSample F) × (sample ≡ some f)
        × (natural f.monotonic_ns ≡ some scale.time)
        × (natural f.sequence ≡ some scale.sequence)
    pub past : scale.time ≤ robot
    pub fresh : tm.exceeds (now - scale.time) s.config.max_scale_age_s ≡ false
    pub close : tm.exceeds (gap scale.time robot) s.config.max_scale_skew_s ≡ false
    pub new : NotBelow s.last_scale_sequence scale.sequence

  pub record IsPrepared {im : Images} (s : Assembler F) (sample : CollectionSample im F)
      (now_ns : Value F) (p : Prepared im F) : Type 0 where
    pub now_of : natural now_ns ≡ some p.now
    pub joints : HasJoints s sample p.now
    pub ft : HasFt s sample.ft sample.observation.metadata.monotonic_ns p.now p.ft
    pub scale : HasScale s sample.scale sample.observation.metadata.monotonic_ns p.now p.scale
    pub roles : names_eq (keys sample.cameras) s.config.record_camera_roles ≡ true

  check_joints-HasJoints :
      {im : Images} (s : Assembler F) (sample : CollectionSample im F) (now : ℕ)
      (r : List F × List F)
      → check_joints fl tm s sample now ≡ ok r
      → HasJoints s sample now
  unfolding check_joints
  check_joints-HasJoints s sample now r h = record {
    observation_fresh = ground arith;
    action_fresh = ground arith;
    paired = ground arith;
    observation_new =
        require_increasing_sequence-Above sample.observation.metadata.source_sequence
          s.last_observation_sequence observation_sequence (ground arith);
    action_new =
        require_increasing_sequence-Above sample.action.metadata.source_sequence
          s.last_action_sequence action_sequence (ground arith);
    observation_names = ground arith;
    action_names = ground arith;
  }

  check_ft-HasFt :
      (s : Assembler F) (sample : Option (FtSample F)) (robot now : ℕ) (wrench : List F)
      (stamp : Stamp)
      → check_ft fl tm s sample robot now ≡ ok (wrench, stamp)
      → HasFt s sample robot now stamp
  unfolding check_ft
  check_ft-HasFt s none robot now wrench stamp h = absurd (ground arith)
  check_ft-HasFt s (some f) robot now wrench stamp h = record {
    of_sample = (f, refl, ground arith, ground arith);
    past = ground arith;
    fresh = ground arith;
    close = ground arith;
    new =
        require_increasing_sequence-Above stamp.sequence s.last_ft_sequence ft_sequence
          (ground arith);
  }

  check_scale-HasScale :
      (s : Assembler F) (sample : Option (ScaleSample F)) (robot now : ℕ)
      (r : F × Bool × Bool × Bool × Stamp)
      → check_scale fl tm s sample robot now ≡ ok r
      → HasScale s sample robot now r.4
  unfolding check_scale
  check_scale-HasScale s none robot now r h = absurd (ground arith)
  check_scale-HasScale s (some f) robot now r h = record {
    of_sample = (f, refl, ground arith, ground arith);
    past = ground arith;
    fresh = ground arith;
    close = ground arith;
    new = not_backward-NotBelow s.last_scale_sequence r.4.sequence (ground arith);
  }

  pub prepare-IsPrepared :
      {im : Images} (s : Assembler F) (sample : CollectionSample im F) (now_ns : Value F)
      (p : Prepared im F)
      → prepare fl tm s sample now_ns ≡ ok p
      → IsPrepared s sample now_ns p
  unfolding prepare
  prepare-IsPrepared s sample now_ns p h = elim (Option-cases (natural now_ns)) [
    | inl nothing ↦ absurd (ground (arith, nothing))
    | inr (now, timed) ↦ elim (Result-cases (check_joints fl tm s sample now)) [
      | inr (x, failed) ↦ absurd (ground (arith, timed, failed))
      | inl (joints, valid) ↦
          let robot = sample.observation.metadata.monotonic_ns in
          elim (Result-cases (check_ft fl tm s sample.ft robot now)) [
            | inr (x, failed) ↦ absurd (ground (arith, timed, valid, failed))
            | inl ((wrench, stamp), ft) ↦
                elim (Result-cases (check_scale fl tm s sample.scale robot now)) [
                  | inr (x, failed) ↦ absurd (ground (arith, timed, valid, ft, failed))
                  | inl (scale, weighed) ↦
                      let same : now ≡ p.now = ground (arith, timed, valid, ft, weighed) in
                      let stamped : stamp ≡ p.ft = ground (arith, timed, valid, ft, weighed) in
                      let weighing : scale.4 ≡ p.scale =
                        ground (arith, timed, valid, ft, weighed) in
                      record {
                        now_of = timed ∙ ap (λ n. some n) same;
                        joints =
                            subst (λ n. HasJoints s sample n) same
                              (check_joints-HasJoints s sample now joints valid);
                        ft =
                            subst (λ n. HasFt s sample.ft robot n p.ft) same
                              (subst (λ t. HasFt s sample.ft robot now t) stamped
                                (check_ft-HasFt s sample.ft robot now wrench stamp ft));
                        scale =
                            subst (λ n. HasScale s sample.scale robot n p.scale) same
                              (subst (λ t. HasScale s sample.scale robot now t) weighing
                                (check_scale-HasScale s sample.scale robot now scale weighed));
                        roles = ground (arith, timed, valid, ft, weighed);
                      }
                ]
          ]
    ]
  ]
