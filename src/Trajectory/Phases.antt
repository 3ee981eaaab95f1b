-- ===== src/Trajectory/Phases.antt =====
-- The cycles of a sweep: every phase between the first hold and the end is one of them.
use native.Mathlib.Nat.{div-lt_iff_lt-mul}
use vlai_l1_runtime.Prelude.{ℕ, ◌+◌, ◌-◌, ◌*◌, ◌/◌, ◌≤◌, ◌<◌, ◌≡◌, ◌⊎◌, ◌≢◌, refl, arith}
use vlai_l1_runtime.Trajectory.Sweep.{
  SweepSpec, WristSweep, sweep_duration, Leg, moving, holding, phase_at, segment_of,
}

offset-lt : (t start size : ℕ) → start ≤ t → t < start + size → t - start < size
offset-lt t start size low high = omega arith

module _ {F : Type 0} where
  segment-lt :
      (spec : SweepSpec F) (t : ℕ)
      → 0 < spec.hold_ns
      → spec.hold_ns ≤ t
      → t < sweep_duration spec
      → (segment_of spec t).0 < 4 * spec.cycles
  unfolding segment_of
  segment-lt spec t held after before = (div-lt_iff_lt-mul (omega arith)).1 (
      offset-lt t spec.hold_ns (4 * spec.cycles * (spec.transition_ns + spec.hold_ns)) after before)

  between :
      (plan : WristSweep F) (t n : ℕ) (leg : Leg) (segment : ℕ × ℕ)
      → segment_of plan.spec t ≡ segment
      → (phase_at plan t ≡ moving n leg) ⊎ (phase_at plan t ≡ holding n leg)
      → (n ≡ segment.0 / 4 + 1) × (plan.spec.hold_ns ≤ t) × (t ≢ plan.duration_ns)
  unfolding phase_at
  between plan t n leg (segment, local) e phase = ground arith

  -- In a plan with the duration that its constructor computes, every transition and every hold
  -- behind the first belongs to one of the cycles 1, ..., `cycles`, at each time up to the end.
  pub phase_at_cycle :
      (plan : WristSweep F) (t n : ℕ) (leg : Leg)
      → plan.duration_ns ≡ sweep_duration plan.spec
      → 0 < plan.spec.hold_ns
      → t ≤ plan.duration_ns
      → (phase_at plan t ≡ moving n leg) ⊎ (phase_at plan t ≡ holding n leg)
      → (1 ≤ n) × (n ≤ plan.spec.cycles)
  phase_at_cycle plan t n leg whole held before phase =
      let (cycle, after, not_end) = between plan t n leg (segment_of plan.spec t) refl phase in
      let early : t < sweep_duration plan.spec = rw (← whole) (omega arith) in
      let within = segment-lt plan.spec t held after early in omega (arith, cycle, within)
