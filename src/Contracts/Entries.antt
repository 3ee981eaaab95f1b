-- ===== src/Contracts/Entries.antt =====
-- The values of a validated vector are those of the vector that was validated.
use vlai_l1_runtime.Prelude.{
  String, ◌≡◌, ◌⊎◌, inl, inr, some, List, [], ◌∷◌, All, arith, eq_iff, str_eq, Bool-cases, subst,
}
use vlai_l1_runtime.Prelude.Result.{ok, Result-cases}
use vlai_l1_runtime.Prelude.Value.{Floats}
use vlai_l1_runtime.Contracts.Features.{validate_feature_names}
use vlai_l1_runtime.Contracts.Values.{
  lookup, finite_number, normalize, as_mapping, validate_named_values,
}
use vlai_l1_runtime.Contracts.Laws.{reals, text_items-as_mapping, validate_feature_names-unique}

module _ {F : Type 0} where
  -- The value stands under the name.
  abbrev pub Entry : String → F → List (String × F) → Type 0
  Entry name x [] = ⊥
  Entry name x ((k, v) ∷ r) = ((k ≡ name) × (v ≡ x)) ⊎ Entry name x r

  abbrev pub AllFrom : List (String × F) → List (String × F) → Type 0
  AllFrom values r = All (λ (kv : String × F). Entry kv.0 kv.1 values) r

  pub Entry-AllFrom :
      (name : String) (x : F) (values r : List (String × F))
      → AllFrom values r
      → Entry name x r
      → Entry name x values
  Entry-AllFrom name x values [] h e = absurd e
  Entry-AllFrom name x values ((k, v) ∷ r) h (inl (same, equal)) =
      subst (λ y. Entry name y values) equal (subst (λ n. Entry n v values) same h.0)
  Entry-AllFrom name x values ((k, v) ∷ r) h (inr e) = Entry-AllFrom name x values r h.1 e

  pub lookup-Entry :
      (name : String) (x : F) (r : List (String × F)) → lookup name r ≡ some x → Entry name x r
  unfolding lookup
  lookup-Entry name x [] h = absurd (ground arith)
  lookup-Entry name x ((k, v) ∷ r) h = elim (Bool-cases (str_eq k name)) [
    | inl found ↦ inl ((eq_iff k name).0 found, ground (arith, found))
    | inr other ↦ inr (lookup-Entry name x r (ground (arith, other)))
  ]

module _ (fl : Floats) where
  open fl use {F}

  finite_number-Entry :
      (name : String) (x : F) (values : List (String × F))
      → finite_number fl name (lookup name (reals values)) ≡ ok x
      → Entry name x values
  unfolding finite_number lookup
  finite_number-Entry name x [] h = absurd (ground arith)
  finite_number-Entry name x ((k, v) ∷ values) h = elim (Bool-cases (str_eq k name)) [
    | inl found ↦ inl ((eq_iff k name).0 found, ground (arith, found))
    | inr other ↦ inr (finite_number-Entry name x values (ground (arith, other)))
  ]

  normalize-AllFrom :
      (names : List String) (values r : List (String × F))
      → normalize fl names (reals values) ≡ ok r
      → AllFrom values r
  unfolding normalize
  normalize-AllFrom [] values r h =
      let empty : [] ≡ r = ground arith in subst (AllFrom values) empty tt
  normalize-AllFrom (name ∷ names) values r h =
      elim (Result-cases (finite_number fl name (lookup name (reals values)))) [
        | inl (x, number) ↦ elim (Result-cases (normalize fl names (reals values))) [
          | inl (rest, normal) ↦
              let split : (name, x) ∷ rest ≡ r = ground (arith, number, normal) in
              subst (AllFrom values) split (
                finite_number-Entry name x values number,
                normalize-AllFrom names values rest normal,
              )
          | inr (e, failed) ↦ absurd (ground (arith, number, failed))
        ]
        | inr (e, failed) ↦ absurd (ground (arith, failed))
      ]

  pub validate_named_values-AllFrom :
      (names : List String) (values r : List (String × F))
      → validate_named_values fl names (as_mapping values) ≡ ok r
      → AllFrom values r
  unfolding validate_named_values as_mapping
  validate_named_values-AllFrom names values r h =
      elim (Result-cases (validate_feature_names names)) [
        | inl (checked, valid) ↦
            let same = (validate_feature_names-unique names checked valid).0 in
            normalize-AllFrom names values r
              (ground (arith, valid, same, text_items-as_mapping values))
        | inr (x, failed) ↦ absurd (ground (arith, failed))
      ]
