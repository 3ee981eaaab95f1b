-- ===== src/Trajectory/Tests.antt =====
-- One cycle of the left wrist, its first step, and a rehearsal that was stopped.
use vlai_l1_runtime.Prelude.{
  ℕ, ◌+◌, ◌-◌, ◌*◌, ◌/◌, ◌^◌, ◌≤◌, ◌≡◌, refl, ◌⊎◌, String, true, false, none, some, List, [], ◌∷◌,
  map, leb, inl, arith,
}
use vlai_l1_runtime.Prelude.Int.{pos}
use vlai_l1_runtime.Prelude.Naturals.{naturals}
use vlai_l1_runtime.Prelude.Value.{Value, int, text}
use vlai_l1_runtime.Contracts.{
  NamedJointVector, Mapping, mapping, feature_names_for_sides, side_features, as_mapping, lookup,
  names_eq, validate_feature_names, validate_named_values,
}
use vlai_l1_runtime.Trajectory.Sweep.{
  Arithmetic, operator_stop, WristSweep, TrajectoryPoint, positive, initial_hold, moving, holding,
  phase_at, segment_of, point_at, check_position,
}
use vlai_l1_runtime.Trajectory.Rehearsal.{
  Rehearsal, idle, closed, is_live, step, attempt, validated, follow, clock, fresh, start, track,
}
use vlai_l1_runtime.Trajectory.Laws.{
  Call, stepping, polling, stopping, acknowledging, run, ended-run, IsAllowed, step-IsAllowed,
}
use vlai_l1_runtime.Trajectory.Begin.{make_rehearsal, IsWellFormed, rehearsal-IsWellFormed}
use vlai_l1_runtime.Trajectory.Plan.{
  SweepConfig, SpecFields, IsPlanned, make_spec, check_plan, make_sweep, make_sweep-IsPlanned,
  make_sweep_cycle,
}
use vlai_l1_runtime.Prelude.Result.{ok}
use vlai_l1_runtime.Prelude.{take}

abbrev whole : Arithmetic ℕ
whole = record {
  of_nat = λ n. n;
  ratio = λ a b. a / b;
  add = λ a b. a + b;
  sub = λ a b. a - b;
  mul = λ a b. a * b;
  div = λ a b. a / b;
  power = λ a n. a ^ n;
  neg = λ a. 0;
  le = leb;
}

abbrev names : List String
names = side_features "left"

abbrev pose : ℕ → List (String × ℕ)
pose n = map (λ name. (name, n)) names

abbrev plan : WristSweep ℕ
plan = record {
  features = names;
  reference = pose 10;
  active_feature = "left_joint_7.pos";
  bounds = map (λ name. (name, 0, 100)) (take 7 names);
  spec = record { amplitude_deg = 5; transition_ns = 100; hold_ns = 50; cycles = 1 };
  duration_ns = 650;
  state_timeout_ns = 20;
  first_hold_tolerance_deg = 2;
}

abbrev rehearsal : Rehearsal ℕ
rehearsal = record {
  plan = plan;
  tolerance = pose 3;
  persistence_ns = 30;
  state = idle;
  reason = none;
  start_ns = none;
  last_now = none;
  last_source = none;
  last_sequence = none;
  error_since = [];
}

abbrev now : Value ℕ
now = int (pos 1000)

abbrev sample : NamedJointVector ℕ
sample = record {
  values = pose 10;
  metadata = record { source_sequence = 1; monotonic_ns = 990 };
  feature_names = names;
}

abbrev first_point : TrajectoryPoint ℕ
first_point = record {
  relative_ns = 0;
  phase = initial_hold;
  position_deg = pose 10;
  velocity_deg_s = pose 0;
  acceleration_deg_s2 = pose 0;
}

first-stepped : (step naturals whole now (some sample) true rehearsal).0.point ≡ some first_point
unfolding step attempt validated follow clock fresh start track check_position validate_named_values
    validate_feature_names as_mapping lookup point_at phase_at segment_of names_eq
first-stepped = refl

step-IsAllowed_example : IsAllowed naturals whole now (some sample) true rehearsal first_point
step-IsAllowed_example =
    step-IsAllowed naturals whole now (some sample) true rehearsal first_point first-stepped

abbrev stopped : Rehearsal ℕ
stopped = record rehearsal { state = closed; reason = some operator_stop }

abbrev calls : List (Call ℕ)
calls = stepping now (some sample) true ∷ polling now ∷ stopping ∷ acknowledging true true ∷ []

ended-run_example :
    (is_live (run naturals whole calls stopped).0.state ≡ false)
    × ((run naturals whole calls stopped).0.reason ≡ some operator_stop)
    × ((run naturals whole calls stopped).1 ≡ [])
ended-run_example = ended-run naturals whole calls stopped refl

-- At 60 ns the wrist is 10 ns into its first transition.
moving-positive : (phase_at plan 60 ≡ moving 1 positive) ⊎ (phase_at plan 60 ≡ holding 1 positive)
unfolding phase_at
moving-positive = inl refl

abbrev config : SweepConfig ℕ
config = record {
  loader_validated = true;
  min_deg = map (λ name. 0) (take 7 names);
  max_deg = map (λ name. 100) (take 7 names);
  state_timeout_ns = 20;
  first_command_hold_tolerance_deg = 2;
}

abbrev whole_number : ℕ → Value ℕ
whole_number n = int (pos n)

abbrev fields : SpecFields ℕ
fields = record {
  amplitude_deg = whole_number 5;
  transition_ns = whole_number 100;
  hold_ns = whole_number 50;
  cycles = whole_number 1;
  maximum_speed_deg_s = whole_number 90;
  maximum_acceleration_deg_s2 = whole_number 900;
}

abbrev reference : Mapping ℕ
reference = mapping (map (λ name. (text name, whole_number 10)) names)

abbrev root : ℕ → ℕ
root n = 1

plan-made : make_sweep naturals whole root config "left" reference fields ≡ ok plan
unfolding make_sweep make_spec check_plan check_position validate_named_values
    validate_feature_names feature_names_for_sides as_mapping lookup
plan-made = refl

make_sweep-IsPlanned_example : IsPlanned naturals whole root plan
make_sweep-IsPlanned_example =
    make_sweep-IsPlanned naturals whole root config "left" reference fields plan plan-made

make_sweep_cycle_example : (1 ≤ 1) × (1 ≤ 1)
make_sweep_cycle_example =
    make_sweep_cycle naturals whole root config "left" reference fields plan 60 1 positive plan-made
      (omega arith) moving-positive

abbrev tolerated : Mapping ℕ
tolerated = mapping (map (λ name. (text name, whole_number 3)) names)

rehearsal-made : make_rehearsal naturals whole root plan tolerated (whole_number 30) ≡ ok rehearsal
unfolding make_rehearsal validate_named_values validate_feature_names
rehearsal-made = refl

rehearsal-IsWellFormed_example : IsWellFormed (run naturals whole calls rehearsal).0
rehearsal-IsWellFormed_example =
    rehearsal-IsWellFormed naturals whole root plan tolerated (whole_number 30) rehearsal calls
      rehearsal-made
