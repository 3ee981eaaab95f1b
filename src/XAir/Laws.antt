-- ===== src/XAir/Laws.antt =====
-- The vectors of a pair, and the pairs of the single-side assembler.
use vlai_l1_runtime.Prelude.{
  ℕ, ◌+◌, ◌≡◌, refl, ap, subst, String, true, false, none, some, List, [], ◌∷◌, map, inl, inr,
  arith,
}
use vlai_l1_runtime.Prelude.Result.{ok, Result-cases}
use vlai_l1_runtime.Prelude.Value.{Floats}
use vlai_l1_runtime.Contracts.{
  NamedJointVector, side_features, keys, as_mapping, validate_feature_names, validate_named_values,
  make_named_joint_vector,
}
use vlai_l1_runtime.Contracts.Laws.{validate_feature_names-unique, validate_named_values-exact}
use vlai_l1_runtime.Contracts.Entries.{AllFrom, validate_named_values-AllFrom}
use vlai_l1_runtime.XAir.Packet.{Side, side_name, XAirStatePacket}
use vlai_l1_runtime.XAir.Assembler.{
  SingleSide, not_above, named, side_values, Pair, vector, vectors, accept_single, single_pair,
}

-- The metadata and the names of a vector.
pub record IsVector {F : Type 0} (sequence time : ℕ) (names : List String) (v : NamedJointVector F)
    : Type 0 where
  pub sequence_kept : v.metadata.source_sequence ≡ sequence
  pub time_kept : v.metadata.monotonic_ns ≡ time
  pub names_kept : v.feature_names ≡ names
  pub exact : keys v.values ≡ names

module _ {F : Type 0} where
  -- Names beside values.
  abbrev pub beside : List String → List F → List (String × F)
  beside (name ∷ names) (x ∷ xs) = (name, x) ∷ beside names xs
  beside _ _ = []

  pub named-beside :
      (degrees : ℕ → F) (names : List String) (radians : List ℕ)
      → named degrees names radians ≡ beside names (map degrees radians)
  named-beside degrees [] radians = refl
  named-beside degrees (name ∷ names) [] = refl
  named-beside degrees (name ∷ names) (r ∷ radians) =
      ap (λ l. (name, degrees r) ∷ l) (named-beside degrees names radians)

module _ (fl : Floats) (degrees : ℕ → fl.F) where
  open fl use {F}

  vector-IsVector :
      (values : List (String × F)) (sequence time : ℕ) (names : List String)
      (v : NamedJointVector F)
      → vector fl degrees values sequence time names ≡ ok v
      → IsVector sequence time names v
  unfolding make_named_joint_vector
  vector-IsVector values sequence time names v h =
      elim (Result-cases (validate_feature_names names)) [
        | inl (checked, valid) ↦
            let same = (validate_feature_names-unique names checked valid).0 in
            elim (Result-cases (validate_named_values fl names (as_mapping values))) [
              | inl (r, e) ↦
                  let exact = validate_named_values-exact fl names (as_mapping values) r e in
                  ground (arith, valid, same, e, exact.0)
              | inr (x, e) ↦ absurd (ground (arith, valid, same, e))
            ]
        | inr (x, failed) ↦ absurd (ground (arith, failed))
      ]

  pub vectors-IsVector :
      (observation action : List (String × F)) (sequence time : ℕ) (names : List String)
      (p : Pair F)
      → vectors fl degrees observation action sequence time names ≡ ok p
      → IsVector sequence time names p.0 × IsVector sequence time names p.1
  unfolding vectors
  vectors-IsVector observation action sequence time names p h =
      elim (Result-cases (vector fl degrees observation sequence time names)) [
        | inl (o, eo) ↦ elim (Result-cases (vector fl degrees action sequence time names)) [
          | inl (a, ea) ↦
              let whole : (o, a) ≡ p = ground (arith, eo, ea) in
              rw (← whole) (
                vector-IsVector observation sequence time names o eo,
                vector-IsVector action sequence time names a ea,
              )
          | inr (x, e) ↦ absurd (ground (arith, eo, e))
        ]
        | inr (x, e) ↦ absurd (ground (arith, e))
      ]

  vector-AllFrom :
      (values : List (String × F)) (sequence time : ℕ) (names : List String)
      (v : NamedJointVector F)
      → vector fl degrees values sequence time names ≡ ok v
      → AllFrom values v.values
  unfolding make_named_joint_vector
  vector-AllFrom values sequence time names v h =
      elim (Result-cases (validate_feature_names names)) [
        | inl (checked, valid) ↦
            let same = (validate_feature_names-unique names checked valid).0 in
            elim (Result-cases (validate_named_values fl names (as_mapping values))) [
              | inl (r, e) ↦
                  let kept : r ≡ v.values = ground (arith, valid, same, e) in
                  subst (AllFrom values) kept (validate_named_values-AllFrom fl names values r e)
              | inr (x, e) ↦ absurd (ground (arith, valid, same, e))
            ]
        | inr (x, failed) ↦ absurd (ground (arith, failed))
      ]

  pub vectors-AllFrom :
      (observation action : List (String × F)) (sequence time : ℕ) (names : List String)
      (p : Pair F)
      → vectors fl degrees observation action sequence time names ≡ ok p
      → AllFrom observation p.0.values × AllFrom action p.1.values
  unfolding vectors
  vectors-AllFrom observation action sequence time names p h =
      elim (Result-cases (vector fl degrees observation sequence time names)) [
        | inl (o, eo) ↦ elim (Result-cases (vector fl degrees action sequence time names)) [
          | inl (a, ea) ↦
              let whole : (o, a) ≡ p = ground (arith, eo, ea) in
              rw (← whole) (
                vector-AllFrom observation sequence time names o eo,
                vector-AllFrom action sequence time names a ea,
              )
          | inr (x, e) ↦ absurd (ground (arith, eo, e))
        ]
        | inr (x, e) ↦ absurd (ground (arith, e))
      ]

  -- The vector of one side: its metadata, its names, and under each name of the side the position of
  -- its motor in degrees.
  pub record IsSide (s : SingleSide) (time : ℕ) (radians : List ℕ) (v : NamedJointVector F)
      : Type 0 where
    pub exact : IsVector s.output_number time (side_features (side_name s.side)) v
    pub positions :
        AllFrom (beside (side_features (side_name s.side)) (map degrees radians)) v.values

  single_pair-IsSide :
      (p : XAirStatePacket) (s : SingleSide) (pair : Pair F)
      → p.side ≡ s.side
      → (accept_single fl degrees p s).0 ≡ ok (some pair)
      → IsSide s p.monotonic_ns p.follower_radians pair.0
        × IsSide s p.monotonic_ns p.leader_radians pair.1
  unfolding accept_single single_pair
  single_pair-IsSide p s pair own h =
      let made : single_pair fl degrees p s ≡ ok pair =
        elim (Result-cases (single_pair fl degrees p s)) [
          | inl (q, e) ↦ ground (arith, e)
          | inr (x, e) ↦ absurd (ground (arith, e))
        ] in
      let names : List String = side_features (side_name s.side) in
      let (observation, action) =
        vectors-IsVector _ _ s.output_number p.monotonic_ns names pair made in
      let (follower, leader) = vectors-AllFrom _ _ s.output_number p.monotonic_ns names pair made in
      (
        record {
          exact = observation;
          positions = placed p.follower_radians s.side pair.0.values own follower;
        },
        record {
          exact = action;
          positions = placed p.leader_radians s.side pair.1.values own leader;
        },
      )
    where
      placed :
          (radians : List ℕ) (side : Side) (values : List (String × F))
          → p.side ≡ side
          → AllFrom (side_values degrees p.side radians) values
          → AllFrom (beside (side_features (side_name side)) (map degrees radians)) values
      placed radians side values own h =
          subst (λ table. AllFrom table values)
            (named-beside degrees (side_features (side_name side)) radians)
            (subst (λ owner. AllFrom (side_values degrees owner radians) values) own h)

  -- For the assembler's own side and a packet newer than the last, `XAirSingleSideAssembler.accept`
  -- counts the packet and its output, and a pair that it returns has exactly the side's feature
  -- names, the followers' and the leaders' positions in degrees under them, the next output number
  -- and the packet's time; a packet of the other side, or one that is
  -- not newer, changes nothing and gives no pair.
  pub accept_single_exact :
      (p : XAirStatePacket) (s : SingleSide)
      → (p.side ≡ s.side
          → not_above p.source_sequence s.last_single ≡ false
          → ((accept_single fl degrees p s).1 ≡ record s {
            last_single = some p.source_sequence;
            output_number = s.output_number + 1;
          })
            × ((pair : Pair F)
                → (accept_single fl degrees p s).0 ≡ ok (some pair)
                → IsSide s p.monotonic_ns p.follower_radians pair.0
                  × IsSide s p.monotonic_ns p.leader_radians pair.1))
        × (¬ (p.side ≡ s.side) → accept_single fl degrees p s ≡ (ok none, s))
        × (not_above p.source_sequence s.last_single ≡ true
            → ((accept_single fl degrees p s).1 ≡ s)
              × ((pair : Pair F) → ¬ ((accept_single fl degrees p s).0 ≡ ok (some pair))))
  unfolding accept_single
  accept_single_exact p s = (
    (λ own new. (ground arith, λ pair h. single_pair-IsSide p s pair own h)),
    (λ foreign. ground arith),
    λ old. (ground arith, λ pair h. ground arith),
  )
