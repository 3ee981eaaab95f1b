-- ===== src/Trajectory/Sweep.antt =====
-- `WristSweep`: its position check and the point at a time.
use vlai_l1_runtime.Prelude.{
  ℕ, ◌+◌, ◌-◌, ◌*◌, ◌/◌, ◌%◌, ◌^◌, String, Bool, false, ◌&&◌, Option, none, some, List, [], ◌∷◌,
  map, str_eq, ltb, ◌==◌, if◌then◌else◌,
}
use vlai_l1_runtime.Prelude.Result.{Result, ok, err, ◌>>=◌, ◌>>◌, guard}
use vlai_l1_runtime.Prelude.Value.{Floats}
use vlai_l1_runtime.Contracts.{Raised, lookup, as_mapping, validate_named_values}

-- The float arithmetic of the trajectory.
pub record Arithmetic (F : Type 0) : Type 0 where
  pub of_nat : ℕ → F
  -- `a / b` of two ints
  pub ratio : ℕ → ℕ → F
  pub add : F → F → F
  pub sub : F → F → F
  pub mul : F → F → F
  pub div : F → F → F
  -- `x ** n` of an int `n`
  pub power : F → ℕ → F
  pub neg : F → F
  pub le : F → F → Bool

pub data Reason : Type 0 where
  bad_host_time non_monotonic_host_time feedback_timeout transport_fault : Reason
  wrong_feedback_identity : Reason
  bad_vector : Raised → Reason
  joint_bounds : String → Reason
  stale_or_future_feedback non_monotonic_feedback initial_reference_mismatch : Reason
  past_end : Reason
  persistent_tracking_error : String → Reason
  final_tracking_error completed operator_stop : Reason

pub record SweepSpec (F : Type 0) : Type 0 where
  pub amplitude_deg : F
  pub transition_ns : ℕ
  pub hold_ns : ℕ
  pub cycles : ℕ

pub record WristSweep (F : Type 0) : Type 0 where
  pub features : List String
  pub reference : List (String × F)
  pub active_feature : String
  pub bounds : List (String × F × F)
  pub spec : SweepSpec F
  pub duration_ns : ℕ
  pub state_timeout_ns : ℕ
  pub first_hold_tolerance_deg : F

-- The assignment of `duration_ns` in the constructor.
abbrev pub sweep_duration : {F : Type 0} → SweepSpec F → ℕ
sweep_duration spec = spec.hold_ns + 4 * spec.cycles * (spec.transition_ns + spec.hold_ns)

pub data Leg : Type 0 where
  positive return_from_positive negative return_from_negative : Leg

-- The text of `phase`: `holding` is the one with "_hold" behind it.
pub data Phase : Type 0 where
  initial_hold complete : Phase
  moving holding : ℕ → Leg → Phase

pub record TrajectoryPoint (F : Type 0) : Type 0 where
  pub relative_ns : ℕ
  pub phase : Phase
  pub position_deg : List (String × F)
  pub velocity_deg_s : List (String × F)
  pub acceleration_deg_s2 : List (String × F)

abbrev pub leg_of : ℕ → Leg
leg_of n =
    if n == 0
    then positive
    else if n == 1
    then return_from_positive
    else if n == 2
    then negative
    else return_from_negative

-- `values[name] = f(values[name])`
abbrev pub update {ℓ} : {A : Type ℓ} → String → (A → A) → List (String × A) → List (String × A)
update k f [] = []
update k f ((j, v) ∷ m) =
    let rest = update k f m in if str_eq j k then (j, f v) ∷ m else (j, v) ∷ rest

-- The number of the leg at a time after the first hold, and the time within it.
unfoldable pub segment_of : {F : Type 0} → SweepSpec F → ℕ → ℕ × ℕ
segment_of spec t = (
  (t - spec.hold_ns) / (spec.transition_ns + spec.hold_ns),
  (t - spec.hold_ns) % (spec.transition_ns + spec.hold_ns),
)

unfoldable pub phase_at : {F : Type 0} → WristSweep F → ℕ → Phase
unfolding segment_of
phase_at plan t =
    if t == plan.duration_ns
    then complete
    else if ltb t plan.spec.hold_ns
    then initial_hold
    else let (segment, local) = segment_of plan.spec t in
      if ltb local plan.spec.transition_ns
      then moving (segment / 4 + 1) (leg_of (segment % 4))
      else holding (segment / 4 + 1) (leg_of (segment % 4))

module _ (fl : Floats) (ar : Arithmetic fl.F) where
  open fl use {F, zero_value}
  open ar use {of_nat, ratio, add, sub, mul, div, power, neg, le}

  abbrev pub within_bounds : List (String × F × F) → List (String × F) → Result Reason (Unit {0})
  within_bounds [] values = ok tt
  within_bounds ((name, lo, hi) ∷ bounds) values = do
    guard (elim (lookup name values) [ none ↦ false | some x ↦ le lo x && le x hi ])
        (joint_bounds name)
    within_bounds bounds values

  abbrev as_reason {ℓ} : {A : Type ℓ} → Result Raised A → Result Reason A
  as_reason (ok a) = ok a
  as_reason (err e) = err (bad_vector e)

  -- `check_position`
  unfoldable pub check_position :
      WristSweep F → List (String × F) → Result Reason (List (String × F))
  unfolding lookup
  check_position plan values = do
    result ← as_reason (validate_named_values fl plan.features (as_mapping values))
    within_bounds plan.bounds result
    ok result

  abbrev starts : F → Leg → F
  starts amplitude positive = zero_value
  starts amplitude return_from_positive = amplitude
  starts amplitude negative = zero_value
  starts amplitude return_from_negative = neg amplitude

  abbrev ends : F → Leg → F
  ends amplitude positive = amplitude
  ends amplitude return_from_positive = zero_value
  ends amplitude negative = neg amplitude
  ends amplitude return_from_negative = zero_value

  -- The offset, the velocity and the acceleration of the active joint in a transition.
  abbrev moving_values : (start delta u seconds : F) → F × F × F
  moving_values start delta u seconds =
      let one : F = of_nat 1 in
      (
        add start (
            mul (mul delta (power u 3))
              (add (sub (of_nat 10) (mul (of_nat 15) u)) (mul (of_nat 6) (power u 2)))),
        div (mul (mul (mul delta (of_nat 30)) (power u 2)) (power (sub one u) 2)) seconds,
        div (mul (mul (mul (mul delta (of_nat 60)) u) (sub one u)) (sub one (mul (of_nat 2) u)))
            (power seconds 2),
      )

  -- They are `none` where the code leaves them at the reference and at 0.
  abbrev active_values : SweepSpec F → Phase → ℕ → Option (F × Option (F × F))
  active_values spec initial_hold local = none
  active_values spec complete local = none
  active_values spec (holding cycle leg) local = some (ends spec.amplitude_deg leg, none)
  active_values spec (moving cycle leg) local =
      let (offset, velocity, acceleration) =
        moving_values (starts spec.amplitude_deg leg)
          (sub (ends spec.amplitude_deg leg) (starts spec.amplitude_deg leg))
          (ratio local spec.transition_ns) (div (of_nat spec.transition_ns) (of_nat (10 ^ 9))) in
      some (offset, some (velocity, acceleration))

  abbrev still_values : List String → List (String × F)
  still_values names = map (λ name. (name, zero_value)) names

  abbrev placed : WristSweep F → ℕ → Phase → Option (F × Option (F × F)) → TrajectoryPoint F
  placed plan t phase none = record {
    relative_ns = t;
    phase = phase;
    position_deg = plan.reference;
    velocity_deg_s = still_values plan.features;
    acceleration_deg_s2 = still_values plan.features;
  }
  placed plan t phase (some (offset, none)) = record {
    relative_ns = t;
    phase = phase;
    position_deg = update plan.active_feature (λ x. add x offset) plan.reference;
    velocity_deg_s = still_values plan.features;
    acceleration_deg_s2 = still_values plan.features;
  }
  placed plan t phase (some (offset, some (velocity, acceleration))) = record {
    relative_ns = t;
    phase = phase;
    position_deg = update plan.active_feature (λ x. add x offset) plan.reference;
    velocity_deg_s = update plan.active_feature (λ x. velocity) (still_values plan.features);
    acceleration_deg_s2 =
        update plan.active_feature (λ x. acceleration) (still_values plan.features);
  }

  -- `at`, from a checked time on
  unfoldable pub point_at : WristSweep F → ℕ → Result Reason (TrajectoryPoint F)
  unfolding phase_at segment_of
  point_at plan t =
      if ltb plan.duration_ns t
      then err past_end
      else ok (
          placed plan t (phase_at plan t)
            (active_values plan.spec (phase_at plan t) (segment_of plan.spec t).1))
