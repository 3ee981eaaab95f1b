-- ===== src/Collection/Sizes.antt =====
-- The sizes of what the checks of a sample find.
use vlai_l1_runtime.Prelude.{
  ℕ, String, ◌≡◌, refl, sym, ap, ◌∙◌, Option, none, some, List, [], ◌∷◌, map, length, suc, inl, inr,
  arith, Option-cases,
}
use vlai_l1_runtime.Prelude.Result.{ok, Result-cases}
use vlai_l1_runtime.Prelude.Value.{Floats, Value, natural}
use vlai_l1_runtime.Contracts.{keys, as_mapping, validate_named_values}
use vlai_l1_runtime.Contracts.Laws.{validate_named_values-exact}
use vlai_l1_runtime.Collection.Images.{Images}
use vlai_l1_runtime.Collection.Contract.{names_of, recording_camera_streams}
use vlai_l1_runtime.Collection.Sample.{CollectionSample, FtSample}
use vlai_l1_runtime.Collection.Checks.{
  Seconds, Assembler, Stamp, Prepared, stream_by_role, take_images, finite_values, check_joints,
  check_ft, check_scale, prepare,
}

pub length-map {ℓ κ} :
    {A : Type ℓ} {B : Type κ} (f : A → B) (xs : List A) → length (map f xs) ≡ length xs
length-map f [] = refl
length-map f (x ∷ xs) = ap suc (length-map f xs)

length-keys : {F : Type 0} (m : List (String × F)) → length (keys m) ≡ length m
length-keys [] = refl
length-keys (kv ∷ m) = ap suc (length-keys m)

module _ (fl : Floats) where
  open fl use {F}

  finite_values-length :
      (vs : List (Value F)) (xs : List F) → finite_values fl vs ≡ ok xs → length xs ≡ length vs
  unfolding finite_values
  finite_values-length [] [] h = refl
  finite_values-length [] (x ∷ xs) h = cc
  finite_values-length (v ∷ vs) xs h = elim (Result-cases (finite_values fl vs)) [
    | inr (x, failed) ↦ ground (arith, failed)
    | inl (rest, made) ↦ ground (arith, made, finite_values-length vs rest made)
  ]

module _ (fl : Floats) (tm : Seconds fl.F) where
  open fl use {F}

  -- The values of a checked vector are as many as its names.
  checked-length :
      (names : List String) (values r : List (String × F))
      → validate_named_values fl names (as_mapping values) ≡ ok r
      → length (map (λ (kv : String × F). kv.1) r) ≡ length names
  checked-length names values r h =
      let (exact, finite, again) = validate_named_values-exact fl names (as_mapping values) r h in
      length-map (λ (kv : String × F). kv.1) r ∙ sym (length-keys r) ∙ ap length exact

  -- The sizes of what the checks find.
  pub record IsSized {im : Images} (s : Assembler F) (sample : CollectionSample im F)
      (p : Prepared im F) : Type 0 where
    pub state : length p.sample.state ≡ length (names_of s.config)
    pub action : length p.sample.action ≡ length (names_of s.config)
    pub wrench : length p.sample.ft_wrench ≡ 6
    pub images :
        take_images s.config.record_camera_roles sample.cameras
          (stream_by_role (recording_camera_streams s.config))
        ≡ ok p.sample.images

  check_joints-sized :
      {im : Images} (s : Assembler F) (sample : CollectionSample im F) (now : ℕ)
      (state action : List F)
      → check_joints fl tm s sample now ≡ ok (state, action)
      → (length state ≡ length (names_of s.config)) × (length action ≡ length (names_of s.config))
  unfolding check_joints
  check_joints-sized s sample now state action h =
      let names = names_of s.config in
      elim (Result-cases (validate_named_values fl names (as_mapping sample.observation.values))) [
        | inr (x, failed) ↦ ground (arith, failed)
        | inl (r, passed) ↦
            elim (Result-cases (validate_named_values fl names (as_mapping sample.action.values))) [
              | inr (x, failed) ↦ ground (arith, passed, failed)
              | inl (q, also) ↦
                  let states : state ≡ map (λ (kv : String × F). kv.1) r =
                    ground (arith, passed, also) in
                  let actions : action ≡ map (λ (kv : String × F). kv.1) q =
                    ground (arith, passed, also) in
                  (
                    ap length states ∙ checked-length names sample.observation.values r passed,
                    ap length actions ∙ checked-length names sample.action.values q also,
                  )
            ]
      ]

  check_ft-sized :
      (s : Assembler F) (sample : Option (FtSample F)) (robot now : ℕ) (wrench : List F)
      (stamp : Stamp)
      → check_ft fl tm s sample robot now ≡ ok (wrench, stamp)
      → length wrench ≡ 6
  unfolding check_ft
  check_ft-sized s none robot now wrench stamp h = absurd (ground arith)
  check_ft-sized s (some ft) robot now wrench stamp h = elim (Option-cases ft.values) [
    | inl nothing ↦ ground (arith, nothing)
    | inr (vs, tuple) ↦ elim (Result-cases (finite_values fl vs)) [
      | inr (x, failed) ↦ ground (arith, tuple, failed)
      | inl (xs, finite) ↦ ground (arith, tuple, finite, finite_values-length fl vs xs finite)
    ]
  ]

  pub prepare-IsSized :
      {im : Images} (s : Assembler F) (sample : CollectionSample im F) (now_ns : Value F)
      (p : Prepared im F)
      → prepare fl tm s sample now_ns ≡ ok p
      → IsSized s sample p
  unfolding prepare
  prepare-IsSized s sample now_ns p h = elim (Option-cases (natural now_ns)) [
    | inl nothing ↦ absurd (ground (arith, nothing))
    | inr (now, timed) ↦ elim (Result-cases (check_joints fl tm s sample now)) [
      | inr (x, failed) ↦ absurd (ground (arith, timed, failed))
      | inl ((state, action), joints) ↦
          let robot = sample.observation.metadata.monotonic_ns in
          elim (Result-cases (check_ft fl tm s sample.ft robot now)) [
            | inr (x, failed) ↦ absurd (ground (arith, timed, joints, failed))
            | inl ((wrench, stamp), ft) ↦
                elim (Result-cases (check_scale fl tm s sample.scale robot now)) [
                  | inr (x, failed) ↦ absurd (ground (arith, timed, joints, ft, failed))
                  | inl (scale, weighed) ↦
                      let (states, actions) = check_joints-sized s sample now state action joints in
                      record {
                        state = ground (arith, timed, joints, ft, weighed, states);
                        action = ground (arith, timed, joints, ft, weighed, actions);
                        wrench = ground (
                          arith,
                          timed,
                          joints,
                          ft,
                          weighed,
                          check_ft-sized s sample.ft robot now wrench stamp ft,
                        );
                        images = ground (arith, timed, joints, ft, weighed);
                      }
                ]
          ]
    ]
  ]
