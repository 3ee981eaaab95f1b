-- ===== src/Collection/Assembler.antt =====
-- `SampleAssembler` of schema.py.
use vlai_l1_runtime.Prelude.{ℕ, String, Option, none, some, List, [], ◌∷◌, ltb, leb, if◌then◌else◌}
use vlai_l1_runtime.Prelude.Int.{pos}
use vlai_l1_runtime.Prelude.Result.{Result, ok, err}
use vlai_l1_runtime.Prelude.Exec.{Exec, lift, modify, ◌>>=◌, ◌>>◌}
use vlai_l1_runtime.Prelude.Value.{Floats, Value, int, text, Received, instance_of}
use vlai_l1_runtime.Cameras.Config.{CamerasFields}
use vlai_l1_runtime.Cameras.Frames.{CameraError, FrameFields, CameraFrameMetadata}
use vlai_l1_runtime.Cameras.Validator.{frames, make_validator, validate}
use vlai_l1_runtime.Collection.Images.{Images}
use vlai_l1_runtime.Collection.Contract.{
  CollectionError, camera, camera_skewed, empty_error, CollectionConfig,
}
use vlai_l1_runtime.Collection.Sample.{CameraSample, CollectionSample, ValidatedSample}
use vlai_l1_runtime.Collection.Checks.{Seconds, Assembler, Prepared, gap, prepare}

abbrev pub fields_of : {F : Type 0} → CameraFrameMetadata → FrameFields F
fields_of m = record {
  role = text m.role;
  device_id = text m.device_id;
  stream_epoch = text m.stream_epoch;
  source_sequence = int (pos m.source_sequence);
  monotonic_ns = int (pos m.monotonic_ns);
}

-- `{role: camera.metadata for role, camera in sample.cameras.items()}`
abbrev pub metadata_items :
    {im : Images} {F : Type 0}
    → List (String × CameraSample im)
    → List (Value F × Received (FrameFields F))
metadata_items [] = []
metadata_items ((role, c) ∷ rest) =
    (text role, instance_of (fields_of c.metadata)) ∷ metadata_items rest

-- The greatest distance of a frame from the robot's time, by `max`.
abbrev pub farthest : {im : Images} → ℕ → List (String × CameraSample im) → Option ℕ
farthest robot [] = none
farthest robot ((role, c) ∷ rest) =
    let d = gap c.metadata.monotonic_ns robot in
    elim (farthest robot rest) [ none ↦ some d | some e ↦ some (if ltb d e then e else d) ]

abbrev pub near : Option ℕ → ℕ → Result CollectionError (Unit {0})
near none limit = err empty_error
near (some d) limit = if leb d limit then ok tt else err camera_skewed

module _ (fl : Floats) (tm : Seconds fl.F) where
  open fl use {F}

  -- `SampleAssembler.__init__`
  unfoldable pub make_assembler :
      CollectionConfig F → Received (CamerasFields F) → Result CameraError (Assembler F)
  unfolding make_validator
  make_assembler config cameras =
      elim (make_validator fl tm.nanoseconds cameras (some config.record_camera_roles)) [
        | err e ↦ err e
        | ok validator ↦ ok (record {
          config = config;
          cameras = validator;
          last_observation_sequence = none;
          last_action_sequence = none;
          last_ft_sequence = none;
          last_scale_sequence = none;
        })
      ]

module _ {im : Images} {F : Type 0} where
  -- `self._camera_validator.validate(metadata, now_ns=now_ns)`, whose own state changes
  unfoldable pub check_cameras :
      List (String × CameraSample im) → ℕ → Exec (Assembler F) CollectionError (Unit {0})
  unfolding validate
  check_cameras cameras now s =
      let (result, validator) =
        validate {F = F} (frames (metadata_items cameras)) (int (pos now)) s.cameras in
      elim result [
        | err e ↦ (err (camera e), record s { cameras = validator })
        | ok current ↦ (ok tt, record s { cameras = validator })
      ]

  -- The assignments at the end of `validate`.
  unfoldable pub record_validated :
      CollectionSample im F → Prepared im F → Assembler F → Assembler F
  record_validated sample p s = record s {
    last_observation_sequence = some sample.observation.metadata.source_sequence;
    last_action_sequence = some sample.action.metadata.source_sequence;
    last_ft_sequence = some p.ft.sequence;
    last_scale_sequence = some p.scale.sequence;
  }

module _ (fl : Floats) (tm : Seconds fl.F) where
  open fl use {F}

  unfoldable pub validate_sample :
      {im : Images}
      → CollectionSample im F
      → Value F
      → Exec (Assembler F) CollectionError (ValidatedSample im F)
  unfolding prepare check_cameras record_validated
  validate_sample sample now_ns = do
    p ← (λ s. lift (prepare fl tm s sample now_ns) s)
    check_cameras sample.cameras p.now
    (λ s.
        lift
          (near (farthest sample.observation.metadata.monotonic_ns sample.cameras)
            (tm.nanoseconds s.config.max_robot_camera_skew_s))
          s)
    modify (record_validated sample p)
    (λ s. (ok p.sample, s))
