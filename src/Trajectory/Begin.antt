-- ===== src/Trajectory/Begin.antt =====
-- The constructor of `TrajectoryRehearsal`, and what every rehearsal satisfies from then on.
use vlai_l1_runtime.Prelude.{
  ℕ, ◌<◌, ◌≡◌, String, Bool, true, not, Option, none, List, [], ◌∷◌, all, arith, is_some,
  Bool-cases, inl, inr,
}
use vlai_l1_runtime.Prelude.Result.{Result, ok, err, ◌>>=◌, ◌>>◌, guard, Result-cases}
use vlai_l1_runtime.Prelude.Value.{Floats, Value}
use vlai_l1_runtime.Contracts.{Raised, Mapping, NamedJointVector, validate_named_values}
use vlai_l1_runtime.Trajectory.Sweep.{Arithmetic, WristSweep, TrajectoryPoint}
use vlai_l1_runtime.Trajectory.Plan.{
  SweepError, not_positive, not_positive_ns, bad_reference, require_positive_int,
}
use vlai_l1_runtime.Trajectory.Rehearsal.{
  Rehearsal, idle, is_live, is_running, validated, follow, attempt, step, poll, stop,
  acknowledge_release,
}
use vlai_l1_runtime.Trajectory.Laws.{Call, stepping, perform, run}

module _ (fl : Floats) (ar : Arithmetic fl.F) (sqrt : fl.F → fl.F) where
  open fl use {F, lt, zero_value}

  abbrev tolerances : {A : Type 0} → Result Raised A → Result SweepError A
  tolerances (ok a) = ok a
  tolerances (err e) = err (bad_reference e)

  -- `TrajectoryRehearsal.__init__`
  unfoldable pub make_rehearsal :
      WristSweep F → Mapping F → Value F → Result SweepError (Rehearsal F)
  unfolding require_positive_int
  make_rehearsal plan tracking_error_deg tracking_persistence_ns = do
    tolerance ← tolerances (validate_named_values fl plan.features tracking_error_deg)
    guard (all (λ (kv : String × F). lt zero_value kv.1) tolerance) not_positive
    persistence ← require_positive_int fl ar sqrt tracking_persistence_ns not_positive_ns
    ok (record {
      plan = plan;
      tolerance = tolerance;
      persistence_ns = persistence;
      state = idle;
      reason = none;
      start_ns = none;
      last_now = none;
      last_source = none;
      last_sequence = none;
      error_since = [];
    })

module _ {F : Type 0} where
  -- A reason is there once the rehearsal has ended, and while it runs it has a start and a sample.
  pub record IsWellFormed (s : Rehearsal F) : Type 0 where
    pub reasoned : is_some s.reason ≡ not (is_live s.state)
    pub started : is_running s.state ≡ true → is_some s.start_ns ≡ true
    pub sampled : is_running s.state ≡ true → is_some s.last_source ≡ true
    pub paired : is_some s.last_source ≡ is_some s.last_sequence
    pub patient : 0 < s.persistence_ns

module _ (fl : Floats) (ar : Arithmetic fl.F) where
  open fl use {F}

  validated-kept :
      (now_ns : Value F) (feedback : Option (NamedJointVector F)) (healthy : Bool) (s : Rehearsal F)
      → IsWellFormed s
      → is_live s.state ≡ true
      → IsWellFormed (validated fl ar now_ns feedback healthy s).1
        × (is_live (validated fl ar now_ns feedback healthy s).1.state ≡ true)
  unfolding validated
  validated-kept now_ns feedback healthy s h live = ground arith

  -- What the calls of `step` leave alone, whether they raise or not.
  follow-kept :
      (now : ℕ) (f : NamedJointVector F) (q : List (String × F)) (s : Rehearsal F)
      → IsWellFormed s
      → is_live s.state ≡ true
      → (is_some (follow fl ar now f q s).1.last_source
          ≡ is_some (follow fl ar now f q s).1.last_sequence)
        × ((follow fl ar now f q s).1.persistence_ns ≡ s.persistence_ns)
        × ((follow fl ar now f q s).1.reason ≡ s.reason)
  unfolding follow
  follow-kept now f q s h live = ground arith

  follow-IsWellFormed :
      (now : ℕ) (f : NamedJointVector F) (q : List (String × F)) (s : Rehearsal F)
      (p : TrajectoryPoint F)
      → IsWellFormed s
      → is_live s.state ≡ true
      → (follow fl ar now f q s).0 ≡ ok p
      → IsWellFormed (follow fl ar now f q s).1
  unfolding follow
  follow-IsWellFormed now f q s p h live passed = ground arith

  step-IsWellFormed :
      (now_ns : Value F) (feedback : Option (NamedJointVector F)) (healthy : Bool) (s : Rehearsal F)
      → IsWellFormed s
      → IsWellFormed (step fl ar now_ns feedback healthy s).1
  unfolding step attempt
  step-IsWellFormed now_ns feedback healthy s h = elim (Bool-cases (is_live s.state)) [
    | inr dead ↦ rw dead h
    | inl live ↦
        let s' : Rehearsal F = (validated fl ar now_ns feedback healthy s).1 in
        let (kept, living) = validated-kept now_ns feedback healthy s h live in
        elim (Result-cases (validated fl ar now_ns feedback healthy s).0) [
          | inr (e, failed) ↦ ground (arith, live, failed, kept)
          | inl ((now, f, q), passed) ↦
              let (paired, patient, reason) = follow-kept now f q s' kept living in
              elim (Result-cases (follow fl ar now f q s').0) [
                | inl (p, followed) ↦
                    let done = follow-IsWellFormed now f q s' p kept living followed in
                    ground (arith, live, passed, followed, done)
                | inr (e, failed) ↦ ground (arith, live, passed, failed, kept.patient)
              ]
        ]
  ]

  perform-IsWellFormed :
      (call : Call F) (s : Rehearsal F) → IsWellFormed s → IsWellFormed (perform fl ar call s).0
  unfolding perform poll stop acknowledge_release
  perform-IsWellFormed (stepping now_ns feedback healthy) s h =
      step-IsWellFormed now_ns feedback healthy s h
  perform-IsWellFormed call s h = ground arith

  run_from-IsWellFormed :
      (calls : List (Call F)) (s : Rehearsal F)
      → IsWellFormed s
      → IsWellFormed (run fl ar calls s).0
  unfolding run
  run_from-IsWellFormed [] s h = h
  run_from-IsWellFormed (call ∷ calls) s h =
      run_from-IsWellFormed calls (perform fl ar call s).0 (perform-IsWellFormed call s h)

module _ (fl : Floats) (ar : Arithmetic fl.F) (sqrt : fl.F → fl.F) where
  open fl use {F}

  -- After any calls on a rehearsal that the constructor returned, whatever they raised, it has a
  -- reason exactly if it has ended, and while it runs it has a start time and a last sample.
  pub rehearsal-IsWellFormed :
      (plan : WristSweep F) (tracking_error_deg : Mapping F) (tracking_persistence_ns : Value F)
      (s : Rehearsal F) (calls : List (Call F))
      → make_rehearsal fl ar sqrt plan tracking_error_deg tracking_persistence_ns ≡ ok s
      → IsWellFormed (run fl ar calls s).0
  unfolding make_rehearsal
  rehearsal-IsWellFormed plan tracking_error_deg tracking_persistence_ns s calls made =
      run_from-IsWellFormed fl ar calls s (ground arith)
