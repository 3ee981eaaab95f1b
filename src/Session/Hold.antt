-- ===== src/Session/Hold.antt =====
-- The first command of a lease holds the measured pose.
use vlai_l1_runtime.Prelude.{
  ◌≤◌, ◌≡◌, refl, sym, subst, ◌∙◌, String, true, false, List, [], ◌∷◌, arith, eq_iff, Past,
}
use vlai_l1_runtime.Prelude.Result.{ok}
use vlai_l1_runtime.Prelude.Value.{Floats}
use vlai_l1_runtime.Contracts.{
  CommandEnvelope, NamedJointVector, feature_names, keys, lookup, contains, unique, as_mapping,
  hold_loop, validate_named_values, validate_first_command_hold,
}
use vlai_l1_runtime.Contracts.Laws.{validate_named_values-exact}
use vlai_l1_runtime.Session.State.{Session}
use vlai_l1_runtime.Session.Commands.{first_command}

feature_names-unique : unique feature_names ≡ true
unfolding unique feature_names
feature_names-unique = refl

module _ (fl : Floats) where
  open fl use {F, is_finite, distance, lt, zero_value}

  -- The two vectors have the same names in the same order, and under each name values whose
  -- distance is not above the tolerance.
  abbrev pub Near : F → List (String × F) → List (String × F) → Type 0
  Near tolerance [] [] = Unit {0}
  Near tolerance ((name, a) ∷ xs) ((other, b) ∷ ys) =
      (name ≡ other) × (lt tolerance (distance a b) ≡ false) × Near tolerance xs ys
  Near tolerance _ _ = ⊥

  -- The feedback of a first command came after the lease, the command not before it, and the command
  -- asks for what the feedback measured, within the tolerance.
  pub record IsHeld (s : Session F) (c : CommandEnvelope F) (f : NamedJointVector F) : Type 0 where
    pub after_lease : Past s.lease_acquired_ns f.metadata.monotonic_ns
    pub fed : f.metadata.monotonic_ns ≤ c.monotonic_ns
    pub finite : is_finite s.policy.first_command_hold_tolerance_deg ≡ true
    pub not_negative : lt s.policy.first_command_hold_tolerance_deg zero_value ≡ false
    pub near : Near s.policy.first_command_hold_tolerance_deg c.action f.values

  -- Entries under a name that is not asked for do not matter.
  hold_loop-cons :
      (tolerance : F) (k : String) (a b : F) (names : List String) (xs ys : List (String × F))
      → contains k names ≡ false
      → hold_loop fl tolerance names ((k, a) ∷ xs) ((k, b) ∷ ys)
        ≡ hold_loop fl tolerance names xs ys
  unfolding hold_loop contains lookup
  hold_loop-cons tolerance k a b [] xs ys absent = refl
  hold_loop-cons tolerance k a b (name ∷ names) xs ys absent =
      ground (arith, hold_loop-cons tolerance k a b names xs ys)

  hold_loop-first :
      (tolerance : F) (k : String) (a b : F) (xs ys : List (String × F))
      → contains k (keys xs) ≡ false
      → (hold_loop fl tolerance (k ∷ keys xs) ((k, a) ∷ xs) ((k, b) ∷ ys) ≡ ok tt
          → (lt tolerance (distance a b) ≡ false)
            × (hold_loop fl tolerance (keys xs) xs ys ≡ ok tt))
        × (lt tolerance (distance a b) ≡ false
            → hold_loop fl tolerance (keys xs) xs ys ≡ ok tt
            → hold_loop fl tolerance (k ∷ keys xs) ((k, a) ∷ xs) ((k, b) ∷ ys) ≡ ok tt)
  unfolding hold_loop lookup
  hold_loop-first tolerance k a b xs ys absent = (
    (λ h. ground (arith, eq_iff k k, hold_loop-cons tolerance k a b (keys xs) xs ys absent)),
    (λ close h. ground (arith, eq_iff k k, hold_loop-cons tolerance k a b (keys xs) xs ys absent)),
  )

  hold_loop-Near :
      (tolerance : F) (xs ys : List (String × F))
      → keys ys ≡ keys xs
      → unique (keys xs) ≡ true
      → (hold_loop fl tolerance (keys xs) xs ys ≡ ok tt → Near tolerance xs ys)
        × (Near tolerance xs ys → hold_loop fl tolerance (keys xs) xs ys ≡ ok tt)
  unfolding hold_loop unique
  hold_loop-Near tolerance [] [] same distinct = ((λ h. tt), λ h. refl)
  hold_loop-Near tolerance [] (y ∷ ys) same distinct = absurd (ground arith)
  hold_loop-Near tolerance ((k, a) ∷ xs) [] same distinct = absurd (ground arith)
  hold_loop-Near tolerance ((k, a) ∷ xs) ((j, b) ∷ ys) same distinct =
      let name : k ≡ j = ground arith in
      let names : keys ys ≡ keys xs = ground arith in
      let (near, held) = hold_loop-Near tolerance xs ys names (ground arith) in
      let holds : String → Type 0 =
        λ n. hold_loop fl tolerance (k ∷ keys xs) ((k, a) ∷ xs) ((n, b) ∷ ys) ≡ ok tt in
      let (split, joined) = hold_loop-first tolerance k a b xs ys (ground arith) in
      (
        (λ h. let (close, rest) = split (subst holds (sym name) h) in (name, close, near rest)),
        λ h. subst holds name (joined h.1 (held h.2)),
      )

  -- The hold test passes for exactly the vectors that are near.
  validate_first_command_hold-Near :
      (tolerance : F) (xs ys : List (String × F))
      → validate_named_values fl feature_names (as_mapping xs) ≡ ok xs
      → validate_named_values fl feature_names (as_mapping ys) ≡ ok ys
      → (validate_first_command_hold fl xs ys tolerance ≡ ok tt
          → (is_finite tolerance ≡ true) × (lt tolerance zero_value ≡ false) × Near tolerance xs ys)
        × (is_finite tolerance ≡ true
            → lt tolerance zero_value ≡ false
            → Near tolerance xs ys
            → validate_first_command_hold fl xs ys tolerance ≡ ok tt)
  unfolding validate_first_command_hold
  validate_first_command_hold-Near tolerance xs ys valid measured =
      let x_keys = (validate_named_values-exact fl feature_names (as_mapping xs) xs valid).0 in
      let y_keys = (validate_named_values-exact fl feature_names (as_mapping ys) ys measured).0 in
      let (near, held) =
        hold_loop-Near tolerance xs ys (y_keys ∙ sym x_keys) (rw x_keys feature_names-unique) in
      (
        (λ h. (
          ground (arith, valid, measured),
          ground (arith, valid, measured),
          near (rw x_keys (ground (arith, valid, measured))),
        )),
        λ finite not_negative close.
            let held_names : hold_loop fl tolerance feature_names xs ys ≡ ok tt =
              subst (λ names. hold_loop fl tolerance names xs ys ≡ ok tt) x_keys (held close) in
            ground (arith, valid, measured, held_names),
      )

  -- The tests of the first command pass for exactly the commands that are held.
  pub first_command-IsHeld :
      (s : Session F) (c : CommandEnvelope F) (f : NamedJointVector F)
      → validate_named_values fl feature_names (as_mapping c.action) ≡ ok c.action
      → validate_named_values fl feature_names (as_mapping f.values) ≡ ok f.values
      → (first_command fl s c f ≡ ok tt → IsHeld s c f)
        × (IsHeld s c f → first_command fl s c f ≡ ok tt)
  unfolding first_command
  first_command-IsHeld s c f valid measured =
      let (passed, passes) =
        validate_first_command_hold-Near s.policy.first_command_hold_tolerance_deg c.action f.values
          valid measured in
      (
        (λ h.
            let (finite, not_negative, near) = passed (ground arith) in
            record {
              after_lease = ground arith;
              fed = ground arith;
              finite = finite;
              not_negative = not_negative;
              near = near;
            }),
        λ held.
            let hold = passes held.finite held.not_negative held.near in
            ground (arith, hold, held.after_lease, held.fed),
      )
