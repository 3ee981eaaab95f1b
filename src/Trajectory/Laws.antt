-- ===== src/Trajectory/Laws.antt =====
-- The rehearsal ends once, and what it allows before that.
use vlai_l1_runtime.Prelude.{
  ℕ, ◌+◌, ◌-◌, ◌≤◌, ◌<◌, ◌≡◌, ◌∙◌, ap, refl, Bool, true, false, Option, none, some, List, [], ◌∷◌,
  inl, inr, arith, String, Bool-cases,
}
use vlai_l1_runtime.Prelude.Result.{Result, ok, err, Result-cases}
use vlai_l1_runtime.Prelude.Value.{Floats, Value, natural}
use vlai_l1_runtime.Contracts.{NamedJointVector}
use vlai_l1_runtime.Trajectory.Sweep.{Arithmetic, TrajectoryPoint, point_at, check_position}
use vlai_l1_runtime.Trajectory.Bounds.{InBounds, check_position-InBounds}
use vlai_l1_runtime.Trajectory.Rehearsal.{
  running, Rehearsal, is_live, begun, validated, follow, attempt, step, poll, stop,
  acknowledge_release,
}

abbrev pub is_ok {ℓ κ} : {E : Type ℓ} {A : Type κ} → Result E A → Bool
is_ok (ok a) = true
is_ok (err e) = false

-- A call, with its arguments.
pub data Call (F : Type 0) : Type 0 where
  stepping : Value F → Option (NamedJointVector F) → Bool → Call F
  polling : Value F → Call F
  stopping : Call F
  acknowledging : Bool → Bool → Call F

abbrev pub is_acknowledging : {F : Type 0} → Call F → Bool
is_acknowledging (acknowledging _ _) = true
is_acknowledging _ = false

module _ (fl : Floats) (ar : Arithmetic fl.F) where
  open fl use {F}

  -- The state after a call, and the point that it returned.
  unfoldable pub perform : Call F → Rehearsal F → Rehearsal F × Option (TrajectoryPoint F)
  perform (stepping now_ns feedback healthy) s =
      ((step fl ar now_ns feedback healthy s).1, (step fl ar now_ns feedback healthy s).0.point)
  perform (polling now_ns) s = ((poll now_ns s).1, (poll now_ns s).0.point)
  perform stopping s = ((stop s).1, (stop s).0.point)
  perform (acknowledging disabled released) s = ((acknowledge_release disabled released s).1, none)

  abbrev gathered : Option (TrajectoryPoint F) → List (TrajectoryPoint F) → List (TrajectoryPoint F)
  gathered none points = points
  gathered (some p) points = p ∷ points

  unfoldable pub run : List (Call F) → Rehearsal F → Rehearsal F × List (TrajectoryPoint F)
  run [] s = (s, [])
  run (call ∷ calls) s =
      let (s', point) = perform call s in
      let (s'', points) = run calls s' in (s'', gathered point points)

  perform_ended :
      (call : Call F) (s : Rehearsal F)
      → is_live s.state ≡ false
      → (is_live (perform call s).0.state ≡ false)
        × ((perform call s).0.reason ≡ s.reason)
        × ((perform call s).1 ≡ none)
  unfolding perform step poll stop acknowledge_release
  perform_ended call s h = ground arith

  -- A rehearsal that has ended stays ended, keeps the reason of its end through every sequence of
  -- calls, and never returns a point again.
  pub ended-run :
      (calls : List (Call F)) (s : Rehearsal F)
      → is_live s.state ≡ false
      → (is_live (run calls s).0.state ≡ false)
        × ((run calls s).0.reason ≡ s.reason)
        × ((run calls s).1 ≡ [])
  unfolding run
  ended-run [] s h = (h, refl, refl)
  ended-run (call ∷ calls) s h =
      let (still, kept, nothing) = perform_ended call s h in
      let (ended, reason, points) = ended-run calls (perform call s).0 still in
      (ended, ground (arith, kept, reason), ground (arith, nothing, points))

  -- What holds when `step` returns a point.
  pub record IsAllowed (now_ns : Value F) (feedback : Option (NamedJointVector F)) (healthy : Bool)
      (s : Rehearsal F) (p : TrajectoryPoint F) : Type 0 where
    pub now : ℕ
    pub f : NamedJointVector F
    pub live : is_live s.state ≡ true
    pub timed : natural now_ns ≡ some now
    pub healthy_transport : healthy ≡ true
    pub sample : feedback ≡ some f
    pub source_past : f.metadata.monotonic_ns ≤ now
    pub source_recent : now ≤ f.metadata.monotonic_ns + s.plan.state_timeout_ns
    pub in_bounds : InBounds ar s.plan.bounds f.values
    pub before_end :
        now - begun (step fl ar now_ns feedback healthy s).1.start_ns < s.plan.duration_ns
    pub on_plan :
        point_at fl ar s.plan (now - begun (step fl ar now_ns feedback healthy s).1.start_ns) ≡ ok p
    pub still_running : (step fl ar now_ns feedback healthy s).1.state ≡ running

  validated-ok :
      (now_ns : Value F) (feedback : Option (NamedJointVector F)) (healthy : Bool) (s : Rehearsal F)
      (now : ℕ) (f : NamedJointVector F) (q : List (String × F))
      → (validated fl ar now_ns feedback healthy s).0 ≡ ok (now, f, q)
      → ((validated fl ar now_ns feedback healthy s).1 ≡ record s { last_now = some now })
        × (natural now_ns ≡ some now)
        × (healthy ≡ true)
        × (feedback ≡ some f)
        × (f.metadata.monotonic_ns ≤ now)
        × (now ≤ f.metadata.monotonic_ns + s.plan.state_timeout_ns)
        × (check_position fl ar s.plan f.values ≡ ok q)
  unfolding validated
  validated-ok now_ns feedback healthy s now f q h = ground arith

  follow-ok :
      (now : ℕ) (f : NamedJointVector F) (q : List (String × F)) (s : Rehearsal F)
      (p : TrajectoryPoint F)
      → is_live s.state ≡ true
      → (follow fl ar now f q s).0 ≡ ok p
      → (now - begun (follow fl ar now f q s).1.start_ns < s.plan.duration_ns)
        × (point_at fl ar s.plan (now - begun (follow fl ar now f q s).1.start_ns) ≡ ok p)
        × ((follow fl ar now f q s).1.state ≡ running)
  unfolding follow
  follow-ok now f q s p live h = ground arith

  -- A point comes from `step` only for healthy transport and a feedback sample that is neither from
  -- the future nor older than the time-out and has, for every joint that the plan bounds, a value
  -- between the two bounds; it is the point of the plan at the time since the start, which is before
  -- the plan's end, and the rehearsal runs.
  pub step-IsAllowed :
      (now_ns : Value F) (feedback : Option (NamedJointVector F)) (healthy : Bool) (s : Rehearsal F)
      (p : TrajectoryPoint F)
      → (step fl ar now_ns feedback healthy s).0.point ≡ some p
      → IsAllowed now_ns feedback healthy s p
  unfolding step attempt
  step-IsAllowed now_ns feedback healthy s p h = elim (Bool-cases (is_live s.state)) [
    | inr dead ↦ absurd (ground (arith, dead))
    | inl live ↦ elim (Result-cases (validated fl ar now_ns feedback healthy s).0) [
      | inr (e, failed) ↦ absurd (ground (arith, live, failed))
      | inl ((now, f, q), passed) ↦
          let (clocked, timed, sound, sample, past, recent, bounded) =
            validated-ok now_ns feedback healthy s now f q passed in
          let s' : Rehearsal F = record s { last_now = some now } in
          elim (Result-cases (follow fl ar now f q s').0) [
            | inr (e, failed) ↦ absurd (ground (arith, live, passed, clocked, failed))
            | inl (p', followed) ↦
                let same : p' ≡ p = ground (arith, live, passed, clocked, followed) in
                let after : (step fl ar now_ns feedback healthy s).1 ≡ (follow fl ar now f q s').1 =
                  ground (arith, live, passed, clocked, followed) in
                let (before, on_plan, going) = follow-ok now f q s' p' live followed in
                record {
                  now = now;
                  f = f;
                  live = live;
                  timed = timed;
                  healthy_transport = sound;
                  sample = sample;
                  source_past = past;
                  source_recent = recent;
                  in_bounds = check_position-InBounds fl ar s.plan f.values q bounded;
                  before_end = rw after before;
                  on_plan = rw after (on_plan ∙ ap ok same);
                  still_running = rw after going;
                }
          ]
    ]
  ]
