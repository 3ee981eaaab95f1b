-- ===== src/Trajectory/Plan.antt =====
-- The constructors of `SweepSpec` and `WristSweep`.
use Prim.Native.String.{◌++◌ as str_append}
use vlai_l1_runtime.Prelude.{
  ◌+◌, ◌*◌, ℕ, ◌^◌, ◌≤◌, ◌<◌, ◌≡◌, ◌⊎◌, refl, String, Bool, not, ◌&&◌, Option, none, some, List, [],
  inl, inr, ◌∷◌, ltb, take, if◌then◌else◌, arith,
}
use vlai_l1_runtime.Prelude.Int.{pos}
use vlai_l1_runtime.Prelude.Result.{Result, ok, err, ◌>>=◌, ◌>>◌, guard, Result-cases}
use vlai_l1_runtime.Prelude.Value.{Floats, Value, int, real}
use vlai_l1_runtime.Contracts.{
  ContractError, Raised, Mapping, feature_names_for_sides, validate_named_values,
}
use vlai_l1_runtime.Trajectory.Bounds.{InBounds, check_position-InBounds}
use vlai_l1_runtime.Trajectory.Sweep.{
  Arithmetic, Reason, SweepSpec, WristSweep, sweep_duration, update, check_position, Leg, moving,
  holding, phase_at,
}
use vlai_l1_runtime.Trajectory.Phases.{phase_at_cycle}

pub data SweepError : Type 0 where
  not_positive not_positive_ns bad_cycles overflow : SweepError
  speed_budget acceleration_budget : SweepError
  not_loader_validated bad_limits : SweepError
  bad_side : ContractError → SweepError
  bad_reference : Raised → SweepError
  out_of_bounds : Reason → SweepError

-- The arguments of `SweepSpec`.
pub record SpecFields (F : Type 0) : Type 0 where
  pub amplitude_deg : Value F
  pub transition_ns : Value F
  pub hold_ns : Value F
  pub cycles : Value F
  pub maximum_speed_deg_s : Value F
  pub maximum_acceleration_deg_s2 : Value F

-- What `WristSweep` reads of the configuration; `min_deg` and `max_deg` are those of the side, and the
-- time-out stands as the result of `math.ceil(seconds * 1e9)`.
pub record SweepConfig (F : Type 0) : Type 0 where
  pub loader_validated : Bool
  pub min_deg : List F
  pub max_deg : List F
  pub state_timeout_ns : ℕ
  pub first_command_hold_tolerance_deg : F

module _ (fl : Floats) (ar : Arithmetic fl.F) (sqrt : fl.F → fl.F) where
  open fl use {F, is_finite, of_int, lt, zero_value}
  open ar use {of_nat, ratio, add, mul, div, power, neg}

  abbrev positive_float : F → Result SweepError F
  positive_float x = if is_finite x && lt zero_value x then ok x else err not_positive

  abbrev float_of_int : Option F → Result SweepError F
  float_of_int none = err overflow
  float_of_int (some x) = positive_float x

  -- `_positive`; an int is kept as the float that equals it
  unfoldable pub require_positive : Value F → Result SweepError F
  require_positive (int z) = float_of_int (of_int z)
  require_positive (real x) = positive_float x
  require_positive _ = err not_positive

  -- `_ns(value, label, positive=True)`, and the test of `cycles`
  unfoldable pub require_positive_int : Value F → SweepError → Result SweepError ℕ
  require_positive_int (int (pos n)) e = if ltb 0 n then ok n else err e
  require_positive_int _ e = err e

  -- `SweepSpec.__post_init__`
  unfoldable pub make_spec : SpecFields F → Result SweepError (SweepSpec F)
  unfolding require_positive require_positive_int
  make_spec f = do
    amplitude ← require_positive f.amplitude_deg
    speed ← require_positive f.maximum_speed_deg_s
    acceleration ← require_positive f.maximum_acceleration_deg_s2
    transition ← require_positive_int f.transition_ns not_positive_ns
    hold ← require_positive_int f.hold_ns not_positive_ns
    cycles ← require_positive_int f.cycles bad_cycles
    let seconds : F = div (of_nat transition) (of_nat (10 ^ 9))
    guard (not (lt speed (div (mul (ratio 15 8) amplitude) seconds))) speed_budget
    guard
        (not (
          lt acceleration (
            div (mul (div (mul (of_nat 10) (sqrt (of_nat 3))) (of_nat 3)) amplitude)
              (power seconds 2))))
        acceleration_budget
    ok (record {
      amplitude_deg = amplitude;
      transition_ns = transition;
      hold_ns = hold;
      cycles = cycles;
    })

  -- `zip(features[:7], min_deg, max_deg, strict=True)`
  abbrev zipped : List String → List F → List F → Result SweepError (List (String × F × F))
  zipped [] [] [] = ok []
  zipped (name ∷ names) (lo ∷ los) (hi ∷ his) =
      zipped names los his >>= λ rest. ok ((name, lo, hi) ∷ rest)
  zipped _ _ _ = err bad_limits

  abbrev excursion : WristSweep F → F → List (String × F)
  excursion plan offset = update plan.active_feature (λ x. add x offset) plan.reference

  abbrev named_side : Result ContractError (List String) → Result SweepError (List String)
  named_side (ok names) = ok names
  named_side (err e) = err (bad_side e)

  abbrev normal : {A : Type 0} → Result Raised A → Result SweepError A
  normal (ok a) = ok a
  normal (err e) = err (bad_reference e)

  abbrev bounded : {A : Type 0} → Result Reason A → Result SweepError (Unit {0})
  bounded (ok a) = ok tt
  bounded (err e) = err (out_of_bounds e)

  abbrev drafted :
      SweepConfig F
      → String
      → SweepSpec F
      → List String
      → List (String × F)
      → List (String × F × F)
      → WristSweep F
  drafted config side spec features reference bounds = record {
    features = features;
    reference = reference;
    active_feature = str_append side "_joint_7.pos";
    bounds = bounds;
    spec = spec;
    duration_ns = sweep_duration spec;
    state_timeout_ns = config.state_timeout_ns;
    first_hold_tolerance_deg = config.first_command_hold_tolerance_deg;
  }

  -- The checks of the three positions.
  unfoldable pub check_plan : WristSweep F → Result SweepError (WristSweep F)
  check_plan plan = do
    bounded (check_position fl ar plan plan.reference)
    bounded (check_position fl ar plan (excursion plan (neg plan.spec.amplitude_deg)))
    bounded (check_position fl ar plan (excursion plan plan.spec.amplitude_deg))
    ok plan

  -- `WristSweep.__init__`; the fields are set before the positions are checked, which only a plan that
  -- is not returned would show.
  unfoldable pub make_sweep :
      SweepConfig F → String → Mapping F → SpecFields F → Result SweepError (WristSweep F)
  unfolding check_plan make_spec
  make_sweep config side reference_deg fields = do
    guard config.loader_validated not_loader_validated
    spec ← make_spec fields
    features ← named_side (feature_names_for_sides (side ∷ []))
    reference ← normal (validate_named_values fl features reference_deg)
    bounds ← zipped (take 7 features) config.min_deg config.max_deg
    check_plan (drafted config side spec features reference bounds)

  abbrev pub Passes : WristSweep F → List (String × F) → Type 0
  Passes plan values =
      (checked : List (String × F)) × (check_position fl ar plan values ≡ ok checked)
      × InBounds ar plan.bounds values

  -- What the constructor promises of a plan.
  pub record IsPlanned (plan : WristSweep F) : Type 0 where
    pub duration :
        plan.duration_ns
        ≡ plan.spec.hold_ns + 4 * plan.spec.cycles * (plan.spec.transition_ns + plan.spec.hold_ns)
    pub moves : 0 < plan.spec.transition_ns
    pub holds : 0 < plan.spec.hold_ns
    pub cycles : 0 < plan.spec.cycles
    pub at_reference : Passes plan plan.reference
    pub at_low : Passes plan (excursion plan (neg plan.spec.amplitude_deg))
    pub at_high : Passes plan (excursion plan plan.spec.amplitude_deg)

  make_spec-positive :
      (fields : SpecFields F) (spec : SweepSpec F)
      → make_spec fields ≡ ok spec
      → (0 < spec.transition_ns) × (0 < spec.hold_ns) × (0 < spec.cycles)
  unfolding make_spec
  make_spec-positive fields spec h = ground arith

  check_plan-ok :
      (p plan : WristSweep F)
      → check_plan p ≡ ok plan
      → (p ≡ plan)
        × Passes plan plan.reference
        × Passes plan (excursion plan (neg plan.spec.amplitude_deg))
        × Passes plan (excursion plan plan.spec.amplitude_deg)
  unfolding check_plan
  check_plan-ok p plan h = elim (Result-cases (check_position fl ar p p.reference)) [
    | inr (e, failed) ↦ absurd (ground (arith, failed))
    | inl (a, at_reference) ↦
        elim (Result-cases (check_position fl ar p (excursion p (neg p.spec.amplitude_deg)))) [
          | inr (e, failed) ↦ absurd (ground (arith, at_reference, failed))
          | inl (b, at_low) ↦
              elim (Result-cases (check_position fl ar p (excursion p p.spec.amplitude_deg))) [
                | inr (e, failed) ↦ absurd (ground (arith, at_reference, at_low, failed))
                | inl (c, at_high) ↦
                    let same : p ≡ plan = ground (arith, at_reference, at_low, at_high) in
                    rw (← same) (
                      refl,
                      (a, at_reference, check_position-InBounds fl ar p _ a at_reference),
                      (b, at_low, check_position-InBounds fl ar p _ b at_low),
                      (c, at_high, check_position-InBounds fl ar p _ c at_high),
                    )
              ]
        ]
  ]

  -- A plan that the constructor of `WristSweep` returns has the duration of its cycles, positive
  -- times and a positive number of cycles, and its reference and both its excursions pass the
  -- check of position, with a value between the bounds for every joint that has bounds.
  pub make_sweep-IsPlanned :
      (config : SweepConfig F) (side : String) (reference_deg : Mapping F) (fields : SpecFields F)
      (plan : WristSweep F)
      → make_sweep config side reference_deg fields ≡ ok plan
      → IsPlanned plan
  unfolding make_sweep
  make_sweep-IsPlanned config side reference_deg fields plan h =
      elim (Result-cases (make_spec fields)) [
        | inr (e, failed) ↦ absurd (ground (arith, failed))
        | inl (spec, specified) ↦ elim (Result-cases (feature_names_for_sides (side ∷ []))) [
          | inr (e, failed) ↦ absurd (ground (arith, specified, failed))
          | inl (features, sided) ↦
              elim (Result-cases (validate_named_values fl features reference_deg)) [
                | inr (e, failed) ↦ absurd (ground (arith, specified, sided, failed))
                | inl (reference, valid) ↦
                    elim (Result-cases (zipped (take 7 features) config.min_deg config.max_deg)) [
                      | inr (e, failed) ↦ absurd (ground (arith, specified, sided, valid, failed))
                      | inl (bounds, limited) ↦
                          let (same, at_reference, at_low, at_high) =
                            check_plan-ok (drafted config side spec features reference bounds) plan
                              (ground (arith, specified, sided, valid, limited)) in
                          let (moves, holds, cycles) = make_spec-positive fields spec specified in
                          record {
                            duration = rw (← same) refl;
                            moves = rw (← same) moves;
                            holds = rw (← same) holds;
                            cycles = rw (← same) cycles;
                            at_reference = at_reference;
                            at_low = at_low;
                            at_high = at_high;
                          }
                    ]
              ]
        ]
      ]

  -- In a plan that the constructor returns, every transition and every hold behind the first
  -- belongs to one of the cycles that were asked for, at each time up to the end.
  pub make_sweep_cycle :
      (config : SweepConfig F) (side : String) (reference_deg : Mapping F) (fields : SpecFields F)
      (plan : WristSweep F) (t n : ℕ) (leg : Leg)
      → make_sweep config side reference_deg fields ≡ ok plan
      → t ≤ plan.duration_ns
      → (phase_at plan t ≡ moving n leg) ⊎ (phase_at plan t ≡ holding n leg)
      → (1 ≤ n) × (n ≤ plan.spec.cycles)
  make_sweep_cycle config side reference_deg fields plan t n leg made before phase =
      let planned = make_sweep-IsPlanned config side reference_deg fields plan made in
      phase_at_cycle plan t n leg planned.duration planned.holds before phase
