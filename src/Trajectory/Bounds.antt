-- ===== src/Trajectory/Bounds.antt =====
-- A position that `check_position` lets pass is within the bounds of its joints.
use vlai_l1_runtime.Prelude.{◌≡◌, true, String, List, [], ◌∷◌, inl, inr, arith, Option-cases}
use vlai_l1_runtime.Prelude.Result.{ok, Result-cases}
use vlai_l1_runtime.Prelude.Value.{Floats}
use vlai_l1_runtime.Contracts.{lookup, as_mapping, validate_named_values}
use vlai_l1_runtime.Contracts.Entries.{
  Entry, AllFrom, Entry-AllFrom, lookup-Entry, validate_named_values-AllFrom,
}
use vlai_l1_runtime.Trajectory.Sweep.{Arithmetic, WristSweep, within_bounds, check_position}

module _ {F : Type 0} (ar : Arithmetic F) where
  -- Every joint with bounds has a value between them.
  abbrev pub InBounds : List (String × F × F) → List (String × F) → Type 0
  InBounds [] values = Unit {0}
  InBounds ((name, lo, hi) ∷ bounds) values =
      ((x : F) × Entry name x values × (ar.le lo x ≡ true) × (ar.le x hi ≡ true))
      × InBounds bounds values

module _ (fl : Floats) (ar : Arithmetic fl.F) where
  open fl use {F}

  within_bounds-InBounds :
      (bounds : List (String × F × F)) (values r : List (String × F))
      → AllFrom values r
      → within_bounds fl ar bounds r ≡ ok tt
      → InBounds ar bounds values
  within_bounds-InBounds [] values r from h = tt
  within_bounds-InBounds ((name, lo, hi) ∷ bounds) values r from h =
      elim (Option-cases (lookup name r)) [
        | inl missing ↦ absurd (ground (arith, missing))
        | inr (x, found) ↦ (
          (
            x,
            Entry-AllFrom name x values r from (lookup-Entry name x r found),
            ground (arith, found),
            ground (arith, found),
          ),
          within_bounds-InBounds bounds values r from (ground (arith, found)),
        )
      ]

  pub check_position-InBounds :
      (plan : WristSweep F) (values r : List (String × F))
      → check_position fl ar plan values ≡ ok r
      → InBounds ar plan.bounds values
  unfolding check_position
  check_position-InBounds plan values r h =
      elim (Result-cases (validate_named_values fl plan.features (as_mapping values))) [
        | inl (q, valid) ↦
            within_bounds-InBounds plan.bounds values q
              (validate_named_values-AllFrom fl plan.features values q valid)
              (elim (Result-cases (within_bounds fl ar plan.bounds q)) [
                | inl (u, within) ↦ within
                | inr (e, outside) ↦ absurd (ground (arith, valid, outside))
              ])
        | inr (e, failed) ↦ absurd (ground (arith, failed))
      ]
