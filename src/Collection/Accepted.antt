-- ===== src/Collection/Accepted.antt =====
-- `SampleAssembler.validate`: what an accepted sample satisfies, and what a refused one leaves.
use vlai_l1_runtime.Prelude.{
  ℕ, ◌+◌, ◌≤◌, String, ◌≡◌, ◌≢◌, ap, ◌∙◌, none, some, List, [], ◌∷◌, inl, inr, arith, Option-cases,
}
use vlai_l1_runtime.Prelude.Int.{pos}
use vlai_l1_runtime.Prelude.Result.{ok, err, Result-cases}
use vlai_l1_runtime.Prelude.Value.{Floats, Value, int}
use vlai_l1_runtime.Cameras.Frames.{CameraFrameMetadata}
use vlai_l1_runtime.Cameras.Validator.{frames, validate}
use vlai_l1_runtime.Cameras.Accepted.{as_previous, IsCoherent, validate-IsCoherent}
use vlai_l1_runtime.Cameras.Invariant.{validate-err}
use vlai_l1_runtime.Collection.Images.{Images}
use vlai_l1_runtime.Collection.Contract.{CollectionError, camera_skewed, empty_error}
use vlai_l1_runtime.Collection.Sample.{CameraSample, CollectionSample, ValidatedSample}
use vlai_l1_runtime.Collection.Checks.{Seconds, Assembler, Prepared, prepare}
use vlai_l1_runtime.Collection.Assembler.{
  metadata_items, farthest, near, check_cameras, record_validated, validate_sample,
}
use vlai_l1_runtime.Collection.Prepared.{IsPrepared, prepare-IsPrepared}

-- Every camera's time is within `limit` of the robot's.
abbrev pub AllNear : {im : Images} → (robot limit : ℕ) → List (String × CameraSample im) → Type 0
AllNear robot limit [] = Unit
AllNear robot limit ((role, c) ∷ rest) =
    (c.metadata.monotonic_ns ≤ robot + limit)
    × (robot ≤ c.metadata.monotonic_ns + limit)
    × AllNear robot limit rest

farthest-none :
    {im : Images} (robot limit : ℕ) (cameras : List (String × CameraSample im))
    → farthest robot cameras ≡ none
    → AllNear robot limit cameras
farthest-none robot limit [] h = tt
farthest-none robot limit ((role, c) ∷ rest) h = absurd (ground arith)

farthest-AllNear :
    {im : Images} (robot limit d : ℕ) (cameras : List (String × CameraSample im))
    → farthest robot cameras ≡ some d
    → d ≤ limit
    → AllNear robot limit cameras
farthest-AllNear robot limit d [] h k = tt
farthest-AllNear robot limit d ((role, c) ∷ rest) h k = elim (Option-cases (farthest robot rest)) [
  | inl nothing ↦
      (ground (arith, nothing), ground (arith, nothing), farthest-none robot limit rest nothing)
  | inr (e, found) ↦ (
    ground (arith, found),
    ground (arith, found),
    farthest-AllNear robot limit e rest found (ground (arith, found)),
  )
]

near-AllNear :
    {im : Images} (robot limit : ℕ) (cameras : List (String × CameraSample im))
    → near (farthest robot cameras) limit ≡ ok tt
    → AllNear robot limit cameras
near-AllNear robot limit cameras h = elim (Option-cases (farthest robot cameras)) [
  | inl nothing ↦ farthest-none robot limit cameras nothing
  | inr (d, found) ↦ farthest-AllNear robot limit d cameras found (ground (arith, found))
]

module _ (fl : Floats) (tm : Seconds fl.F) where
  open fl use {F}

  -- The pieces of a call that returns.
  pub validate_sample-ok :
      {im : Images} (sample : CollectionSample im F) (now_ns : Value F) (s : Assembler F)
      (v : ValidatedSample im F)
      → (validate_sample fl tm sample now_ns s).0 ≡ ok v
      → (p : Prepared im F) × (prepare fl tm s sample now_ns ≡ ok p)
        × (v ≡ p.sample)
        × (current : List (String × CameraFrameMetadata)) × ((validate {F = F}
              (frames (metadata_items sample.cameras))
              (int (pos p.now))
              s.cameras).0
            ≡ ok current)
        × (near
              (farthest sample.observation.metadata.monotonic_ns sample.cameras)
              (tm.nanoseconds s.config.max_robot_camera_skew_s)
            ≡ ok tt)
        × ((validate_sample fl tm sample now_ns s).1
            ≡ record_validated sample p (record s {
              cameras =
                  (validate {F = F}
                    (frames (metadata_items sample.cameras))
                    (int (pos p.now))
                    s.cameras).1;
            }))
  unfolding validate_sample check_cameras
  validate_sample-ok sample now_ns s v h = elim (Result-cases (prepare fl tm s sample now_ns)) [
    | inr (x, failed) ↦ absurd (ground (arith, failed))
    | inl (p, prepared) ↦
        elim (Result-cases
          (validate {F = F} (frames (metadata_items sample.cameras)) (int (pos p.now))
            s.cameras).0) [
              | inr (x, failed) ↦ absurd (ground (arith, prepared, failed))
              | inl (current, coherent) ↦ (
                p,
                prepared,
                ground (arith, prepared, coherent),
                current,
                coherent,
                ground (arith, prepared, coherent),
                ground (arith, prepared, coherent),
              )
            ]
  ]

  -- What `validate` found when it accepted a sample.
  pub record IsCurrent {im : Images} (s : Assembler F) (sample : CollectionSample im F)
      (now_ns : Value F) (v : ValidatedSample im F) : Type 0 where
    pub p : Prepared im F
    pub checked : prepare fl tm s sample now_ns ≡ ok p
    pub found : v ≡ p.sample
    pub prepared : IsPrepared fl tm s sample now_ns p
    pub current : List (String × CameraFrameMetadata)
    pub read :
        (validate {F = F} (frames (metadata_items sample.cameras)) (int (pos p.now)) s.cameras).0
        ≡ ok current
    pub coherent : IsCoherent {F = F} s.cameras (int (pos p.now)) current
    pub near_robot :
        AllNear sample.observation.metadata.monotonic_ns
          (tm.nanoseconds s.config.max_robot_camera_skew_s)
          sample.cameras

  -- A sample that `validate` accepts has joint vectors of the configured features, each fresh and
  -- newer than the last accepted one and both within their skew; a wrench that is newer, not from
  -- the future, not stale and close to the robot's time; a scale reading from before the robot's
  -- time, not stale, close to it and not older than the last; the recorded camera roles in order,
  -- with frames that the camera validator accepts, each within its skew of the robot's time. The
  -- assembler then has their numbers as its last ones.
  pub validate_sample-IsCurrent :
      {im : Images} (sample : CollectionSample im F) (now_ns : Value F) (s : Assembler F)
      (v : ValidatedSample im F)
      → (validate_sample fl tm sample now_ns s).0 ≡ ok v
      → (c : IsCurrent s sample now_ns v) × ((validate_sample fl tm sample now_ns s).1 ≡ record s {
        last_observation_sequence = some sample.observation.metadata.source_sequence;
        last_action_sequence = some sample.action.metadata.source_sequence;
        last_ft_sequence = some c.p.ft.sequence;
        last_scale_sequence = some c.p.scale.sequence;
        cameras = record s.cameras { previous = some (as_previous c.current); pending = none };
      })
  unfolding record_validated
  validate_sample-IsCurrent sample now_ns s v h =
      let (p, prepared, found, current, coherent, close, after) =
        validate_sample-ok sample now_ns s v h in
      let (together, kept) =
        validate-IsCoherent s.cameras (frames (metadata_items sample.cameras)) (int (pos p.now))
          current coherent in
      (
        record {
          p = p;
          checked = prepared;
          found = found;
          prepared = prepare-IsPrepared fl tm s sample now_ns p prepared;
          current = current;
          read = coherent;
          coherent = together;
          near_robot =
              near-AllNear sample.observation.metadata.monotonic_ns
                (tm.nanoseconds s.config.max_robot_camera_skew_s) sample.cameras close;
        },
        after ∙ ap (λ validator. record_validated sample p (record s { cameras = validator })) kept,
      )

  -- A call that raises changes nothing, if it raises neither for the distance of a camera from the
  -- robot in time nor the ValueError of no camera at all.
  pub validate_sample-err :
      {im : Images} (sample : CollectionSample im F) (now_ns : Value F) (s : Assembler F)
      (e : CollectionError)
      → (validate_sample fl tm sample now_ns s).0 ≡ err e
      → e ≢ camera_skewed
      → e ≢ empty_error
      → (validate_sample fl tm sample now_ns s).1 ≡ s
  unfolding validate_sample check_cameras
  validate_sample-err sample now_ns s e h other nonempty =
      elim (Result-cases (prepare fl tm s sample now_ns)) [
        | inr (x, failed) ↦ ground (arith, failed)
        | inl (p, prepared) ↦
            elim (Result-cases
              (validate {F = F} (frames (metadata_items sample.cameras)) (int (pos p.now))
                s.cameras).0) [
                  | inr (x, failed) ↦ ground (
                    arith,
                    prepared,
                    failed,
                    validate-err {F = F} (frames (metadata_items sample.cameras)) (int (pos p.now))
                        s.cameras x failed,
                  )
                  | inl (current, coherent) ↦ ground (arith, prepared, coherent)
                ]
      ]
