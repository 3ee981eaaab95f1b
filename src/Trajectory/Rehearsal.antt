-- ===== src/Trajectory/Rehearsal.antt =====
-- `TrajectoryRehearsal`: the offline fault model.
use vlai_l1_runtime.Prelude.{
  ℕ, ◌-◌, String, Bool, true, false, not, ◌&&◌, ◌||◌, Option, none, some, List, [], ◌∷◌, any,
  str_eq, ltb, leb, if◌then◌else◌,
}
use vlai_l1_runtime.Prelude.Result.{Result, ok, err}
use vlai_l1_runtime.Prelude.Exec.{Exec, pure, lift, gets, modify, guard, ◌>>=◌, ◌>>◌}
use vlai_l1_runtime.Prelude.Value.{Floats, Value, natural}
use vlai_l1_runtime.Contracts.{NamedJointVector, lookup, names_eq}
use vlai_l1_runtime.Trajectory.Sweep.{
  Arithmetic, Reason, bad_host_time, non_monotonic_host_time, feedback_timeout, transport_fault,
  wrong_feedback_identity, stale_or_future_feedback, non_monotonic_feedback,
  initial_reference_mismatch, persistent_tracking_error, final_tracking_error, completed,
  operator_stop, WristSweep, TrajectoryPoint, check_position, point_at,
}

pub data RehearsalState : Type 0 where
  idle running release_required closed release_failed : RehearsalState

pub record Rehearsal (F : Type 0) : Type 0 where
  pub plan : WristSweep F
  pub tolerance : List (String × F)
  pub persistence_ns : ℕ
  pub state : RehearsalState
  pub reason : Option Reason
  pub start_ns : Option ℕ
  pub last_now : Option ℕ
  pub last_source : Option ℕ
  pub last_sequence : Option ℕ
  pub error_since : List (String × ℕ)

pub record RehearsalDecision (F : Type 0) : Type 0 where
  pub decided : RehearsalState
  pub point : Option (TrajectoryPoint F)
  pub decided_reason : Option Reason

abbrev pub is_live : RehearsalState → Bool
is_live idle = true
is_live running = true
is_live _ = false

abbrev pub is_idle : RehearsalState → Bool
is_idle idle = true
is_idle _ = false

abbrev pub is_running : RehearsalState → Bool
is_running running = true
is_running _ = false

abbrev not_after : ℕ → Option ℕ → Bool
not_after n none = false
not_after n (some last) = leb n last

abbrev pub remove {ℓ} : {A : Type ℓ} → String → List (String × A) → List (String × A)
remove k [] = []
remove k ((j, v) ∷ m) = let rest = remove k m in if str_eq j k then rest else (j, v) ∷ rest

-- `_start_ns`, which is set wherever it is read
abbrev pub begun : Option ℕ → ℕ
begun none = 0
begun (some start) = start

module _ {F : Type 0} where
  -- `_decision`
  abbrev pub decision : Option (TrajectoryPoint F) → Rehearsal F → RehearsalDecision F
  decision point s = record { decided = s.state; point = point; decided_reason = s.reason }

  -- `_release`
  unfoldable pub release : Reason → Rehearsal F → Rehearsal F
  release reason s = record s { state = release_required; reason = some reason }

  abbrev overdue : ℕ → Rehearsal F → Bool
  overdue now s = elim s.last_source [
    | none ↦ false
    | some source ↦ ltb s.plan.state_timeout_ns (now - source)
  ]

  abbrev clock_at : Option ℕ → Exec (Rehearsal F) Reason ℕ
  clock_at none s = (err bad_host_time, s)
  clock_at (some now) s =
      if not_after now s.last_now
      then (err non_monotonic_host_time, s)
      else if overdue now s
      then (err feedback_timeout, record s { last_now = some now })
      else (ok now, record s { last_now = some now })

  -- `_clock`; the checked time comes back
  unfoldable pub clock : Value F → Exec (Rehearsal F) Reason ℕ
  clock now_ns s = clock_at (natural now_ns) s

module _ (fl : Floats) (ar : Arithmetic fl.F) where
  open fl use {F, distance, lt}

  abbrev strays : F → String → List (String × F) → List (String × F) → Bool
  strays tolerance name a b = elim (lookup name a) [
    | none ↦ false
    | some x ↦ elim (lookup name b) [ none ↦ false | some y ↦ lt tolerance (distance x y) ]
  ]

  -- `feedback` is none where the object is no NamedJointVector.
  abbrev identified :
      WristSweep F → Option (NamedJointVector F) → Result Reason (NamedJointVector F)
  identified plan none = err wrong_feedback_identity
  identified plan (some feedback) =
      if names_eq feedback.feature_names plan.features
      then ok feedback
      else err wrong_feedback_identity

  abbrev tolerance_of : String → List (String × F) → Option F
  tolerance_of name tolerance = lookup name tolerance

  -- The loop over the features: which of them are off, since when, and if for too long.
  unfoldable pub track :
      List String
      → List (String × F)
      → List (String × F)
      → List (String × F)
      → (source limit : ℕ) → List (String × ℕ)
      → Result Reason (Unit {0}) × List (String × ℕ)
  track [] q expected tolerance source limit since = (ok tt, since)
  track (name ∷ names) q expected tolerance source limit since =
      let off : Bool = elim (lookup name tolerance) [
        | none ↦ false
        | some t ↦ strays t name q expected
      ] in
      let first : ℕ = elim (lookup name since) [ none ↦ source | some t ↦ t ] in
      let marked : List (String × ℕ) = elim (lookup name since) [
        | none ↦ (name, source) ∷ since
        | some t ↦ since
      ] in
      let later = track names q expected tolerance source limit marked in
      let on = track names q expected tolerance source limit (remove name since) in
      if off
      then if leb limit (source - first)
        then (err (persistent_tracking_error name), marked)
        else later
      else on

  abbrev tracked :
      (Result Reason (Unit {0}) × List (String × ℕ)) → Exec (Rehearsal F) Reason (Unit {0})
  tracked (r, since) s = (r, record s { error_since = since })

  -- The first sample must be at the reference; it starts the sweep.
  unfoldable pub start : ℕ → List (String × F) → Exec (Rehearsal F) Reason (Unit {0})
  start now q s =
      if not (is_idle s.state)
      then (ok tt, s)
      else if any (λ name. strays s.plan.first_hold_tolerance_deg name q s.plan.reference)
          s.plan.features
      then (err initial_reference_mismatch, s)
      else (ok tt, record s { start_ns = some now; state = running })

  abbrev clipped : ℕ → ℕ → ℕ
  clipped t duration = if ltb t duration then t else duration

  -- What the body of `step` comes to: a point, or the end of the sweep.
  abbrev finish : ℕ → Exec (Rehearsal F) Reason (TrajectoryPoint F)
  finish now s =
      if leb s.plan.duration_ns (now - begun s.start_ns)
      then (err (elim s.error_since [ [] ↦ completed | e ∷ es ↦ final_tracking_error ]), s)
      else (point_at fl ar s.plan (now - begun s.start_ns), s)

  -- The feedback of one step, against the clock and the feedback before it.
  unfoldable pub fresh : ℕ → NamedJointVector F → Exec (Rehearsal F) Reason (Unit {0})
  fresh now f s =
      if not (leb f.metadata.monotonic_ns now)
        || ltb s.plan.state_timeout_ns (now - f.metadata.monotonic_ns)
      then (err stale_or_future_feedback, s)
      else if not_after f.metadata.source_sequence s.last_sequence || elim s.last_sequence [
        | none ↦ false
        | some n ↦ not_after f.metadata.monotonic_ns s.last_source
      ]
      then (err non_monotonic_feedback, s)
      else (ok tt, s)

  -- The tests of `step` on the clock, the transport and the feedback: the time, the sample and its
  -- values. The constructor and `check_position` validate the values alike, so they are validated
  -- once.
  unfoldable pub validated :
      Value F
      → Option (NamedJointVector F)
      → Bool
      → Exec (Rehearsal F) Reason (ℕ × NamedJointVector F × List (String × F))
  unfolding clock fresh
  validated now_ns feedback transport_healthy = do
    now ← clock now_ns
    guard transport_healthy transport_fault
    plan ← gets (λ s. s.plan)
    sample ← lift (identified plan feedback)
    q ← lift (check_position fl ar plan sample.values)
    fresh now sample
    pure (now, sample, q)

  -- The rest of the `try` of `step`.
  unfoldable pub follow :
      ℕ → NamedJointVector F → List (String × F) → Exec (Rehearsal F) Reason (TrajectoryPoint F)
  unfolding start
  follow now sample q = do
    start now q
    expected ← (λ s. (
      point_at fl ar s.plan
          (clipped (sample.metadata.monotonic_ns - begun s.start_ns) s.plan.duration_ns),
      s,
    ))
    (λ s.
        tracked
          (track s.plan.features q expected.position_deg s.tolerance sample.metadata.monotonic_ns
            s.persistence_ns s.error_since)
          s)
    modify (λ s. record s {
      last_sequence = some sample.metadata.source_sequence;
      last_source = some sample.metadata.monotonic_ns;
    })
    finish now

  -- The `try` of `step`; every exception is a reason to release, and so is the end of the sweep.
  unfoldable pub attempt :
      Value F → Option (NamedJointVector F) → Bool → Exec (Rehearsal F) Reason (TrajectoryPoint F)
  attempt now_ns feedback transport_healthy = do
    checked ← validated now_ns feedback transport_healthy
    follow checked.0 checked.1 checked.2

  abbrev settled :
      Result Reason (TrajectoryPoint F) × Rehearsal F → RehearsalDecision F × Rehearsal F
  settled (ok point, s) = (decision (some point) s, s)
  settled (err reason, s) = (decision none (release reason s), release reason s)

  unfoldable pub step :
      Value F → Option (NamedJointVector F) → Bool → Rehearsal F → RehearsalDecision F × Rehearsal F
  unfolding release
  step now_ns feedback transport_healthy s =
      if is_live s.state
      then settled (attempt now_ns feedback transport_healthy s)
      else (decision none s, s)

module _ {F : Type 0} where
  abbrev polled : Result Reason ℕ × Rehearsal F → RehearsalDecision F × Rehearsal F
  polled (ok now, s) = (decision none s, s)
  polled (err reason, s) = (decision none (release reason s), release reason s)

  unfoldable pub poll : Value F → Rehearsal F → RehearsalDecision F × Rehearsal F
  unfolding clock release
  poll now_ns s = if is_running s.state then polled (clock now_ns s) else (decision none s, s)

  unfoldable pub stop : Rehearsal F → RehearsalDecision F × Rehearsal F
  unfolding release
  stop s =
      if is_live s.state
      then (decision none (release operator_stop s), release operator_stop s)
      else (decision none s, s)

  -- `none` is the ValueError of an acknowledgement that is not expected.
  unfoldable pub acknowledge_release :
      (disabled resources_released : Bool)
      → Rehearsal F
      → Option (RehearsalDecision F) × Rehearsal F
  acknowledge_release disabled resources_released s = elim s.state [
    | release_required ↦
        let s' : Rehearsal F = record s {
          state = if disabled && resources_released then closed else release_failed;
        } in
        (some (decision none s'), s')
    | _ ↦ (none, s)
  ]
