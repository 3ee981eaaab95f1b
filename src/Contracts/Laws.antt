-- ===== src/Contracts/Laws.antt =====
-- A validated vector is exact and finite, and validating it again returns it.
use vlai_l1_runtime.Prelude.{
  String, ◌≡◌, refl, ap, true, false, Option, some, List, [], ◌∷◌, inl, inr, map, eq_iff, arith,
  All, Option-cases,
}
use vlai_l1_runtime.Prelude.Result.{ok, Result-cases}
use vlai_l1_runtime.Prelude.Value.{Floats, Value, real, text}
use vlai_l1_runtime.Contracts.Types.{Mapping, mapping, not_mapping}
use vlai_l1_runtime.Contracts.Features.{contains, unique, subset, validate_feature_names}
use vlai_l1_runtime.Contracts.Values.{
  lookup, keys, text_items, finite_number, normalize, as_mapping, validate_named_values,
}

subset-cons : (x : String) (xs ys : List String) → subset xs ys ≡ true → subset xs (x ∷ ys) ≡ true
unfolding subset
subset-cons x [] ys h = refl
subset-cons x (y ∷ xs) ys h = ground (arith, subset-cons x xs ys)

pub subset_refl : (xs : List String) → subset xs xs ≡ true
unfolding subset
subset_refl [] = refl
subset_refl (x ∷ xs) = ground (arith, eq_iff x x, subset-cons x xs xs (subset_refl xs))

abbrev pub reals : {F : Type 0} → List (String × F) → List (String × Value F)
reals [] = []
reals ((k, v) ∷ r) = (k, real v) ∷ reals r

module _ {F : Type 0} where
  pub text_items-as_mapping :
      (r : List (String × F))
      → text_items (map (λ (kv : String × F). (text kv.0, real kv.1)) r) ≡ some (reals r)
  unfolding text_items
  text_items-as_mapping [] = refl
  text_items-as_mapping ((k, v) ∷ r) = rw (text_items-as_mapping r)

  keys-reals : (r : List (String × F)) → keys (reals r) ≡ keys r
  keys-reals [] = refl
  keys-reals ((k, v) ∷ r) = ap (λ l. k ∷ l) (keys-reals r)

  -- The items of `r` are found in `items`.
  abbrev Found : List (String × Value F) → List (String × F) → Type 0
  Found items [] = Unit {0}
  Found items ((k, v) ∷ r) = (lookup k items ≡ some (real v)) × Found items r

  Found-cons :
      (k : String) (v : Value F) (items : List (String × Value F)) (r : List (String × F))
      → contains k (keys r) ≡ false
      → Found items r
      → Found ((k, v) ∷ items) r
  unfolding contains lookup
  Found-cons k v items [] absent h = tt
  Found-cons k v items ((j, w) ∷ r) absent h =
      (ground (arith, eq_iff k j), Found-cons k v items r (ground arith) h.1)

  Found-reals : (r : List (String × F)) → unique (keys r) ≡ true → Found (reals r) r
  unfolding unique lookup
  Found-reals [] h = tt
  Found-reals ((k, v) ∷ r) h = (
    ground (arith, eq_iff k k),
    Found-cons k (real v) (reals r) r (ground arith) (Found-reals r (ground arith)),
  )

pub validate_feature_names-unique :
    (names checked : List String)
    → validate_feature_names names ≡ ok checked
    → (checked ≡ names) × (unique names ≡ true)
unfolding validate_feature_names
validate_feature_names-unique names checked h = ground arith

module _ (fl : Floats) where
  open fl use {F, is_finite}

  abbrev pub AllFinite : List (String × F) → Type 0
  AllFinite r = All (λ (kv : String × F). is_finite kv.1 ≡ true) r

  finite_number-ok :
      (name : String) (o : Option (Value F)) (x : F)
      → finite_number fl name o ≡ ok x
      → is_finite x ≡ true
  unfolding finite_number
  finite_number-ok name o x h = ground arith

  normalize-exact :
      (names : List String) (items : List (String × Value F)) (r : List (String × F))
      → normalize fl names items ≡ ok r
      → (keys r ≡ names) × AllFinite r
  unfolding normalize
  normalize-exact [] items [] h = (refl, tt)
  normalize-exact [] items (kv ∷ r) h = cc
  normalize-exact (name ∷ names) items r h =
      elim (Result-cases (finite_number fl name (lookup name items))) [
        | inl (x, number) ↦ elim (Result-cases (normalize fl names items)) [
          | inl (rest, normal) ↦
              let split : r ≡ (name, x) ∷ rest = ground (arith, number, normal) in
              let (exact, finite) = normalize-exact names items rest normal in
              rw split (
                ap (λ l. name ∷ l) exact,
                (finite_number-ok name (lookup name items) x number, finite),
              )
          | inr (e, failed) ↦ absurd (ground (arith, number, failed))
        ]
        | inr (e, failed) ↦ absurd (ground (arith, failed))
      ]

  normalize-Found :
      (items : List (String × Value F)) (r : List (String × F))
      → Found items r
      → AllFinite r
      → normalize fl (keys r) items ≡ ok r
  unfolding normalize
  normalize-Found items [] found finite = refl
  normalize-Found items ((k, v) ∷ r) found finite =
      ground (arith, normalize-Found items r found.1 finite.1)

  validate_named_values-normal :
      (names : List String) (m : Mapping F) (r : List (String × F))
      → validate_named_values fl names m ≡ ok r
      → (items : List (String × Value F)) × (validate_feature_names names ≡ ok names)
        × (unique names ≡ true)
        × (normalize fl names items ≡ ok r)
  unfolding validate_named_values
  validate_named_values-normal names not_mapping r h = absurd (ground arith)
  validate_named_values-normal names (mapping entries) r h =
      elim (Result-cases (validate_feature_names names)) [
        | inl (checked, e) ↦ elim (Option-cases (text_items entries)) [
          | inl nothing ↦ absurd (ground (arith, e, nothing))
          | inr (items, found) ↦
              let (same, distinct) = validate_feature_names-unique names checked e in
              (items, ground (arith, e, same), distinct, ground (arith, e, found, same))
        ]
        | inr (x, failed) ↦ absurd (ground (arith, failed))
      ]

  -- A vector that passes has exactly the names asked for, in their order, and finite values only;
  -- and it passes again, unchanged, as the snapshots of the objects that carry it need.
  pub validate_named_values-exact :
      (names : List String) (m : Mapping F) (r : List (String × F))
      → validate_named_values fl names m ≡ ok r
      → (keys r ≡ names) × AllFinite r × (validate_named_values fl names (as_mapping r) ≡ ok r)
  unfolding validate_named_values as_mapping
  validate_named_values-exact names m r h =
      let (items, valid, distinct, normal) = validate_named_values-normal names m r h in
      let (exact, finite) = normalize-exact names items r normal in
      let found : Found (reals r) r = Found-reals r (rw exact distinct) in
      let again : normalize fl names (reals r) ≡ ok r =
        rw (← exact) (normalize-Found (reals r) r found finite) in
      (
        exact,
        finite,
        rw (valid, text_items-as_mapping r, keys-reals r, exact, subset_refl names) again,
      )
