-- ===== src/Collection/Checks.antt =====
-- The checks of `SampleAssembler.validate` before the cameras' own (schema.py).
use vlai_l1_runtime.Prelude.{
  ℕ, ◌+◌, ◌-◌, String, Bool, true, not, ◌&&◌, Option, none, some, List, [], ◌∷◌, map, length, ltb,
  leb, ◌==◌, if◌then◌else◌,
}
use vlai_l1_runtime.Prelude.Int.{ℤ, pos, negsuc}
use vlai_l1_runtime.Prelude.Result.{Result, ok, err, ◌>>=◌, ◌>>◌, guard}
use vlai_l1_runtime.Prelude.Value.{Floats, Value, bool, int, real, natural}
use vlai_l1_runtime.Contracts.{
  NamedJointVector, Raised, names_eq, lookup, keys, as_mapping, validate_named_values,
}
use vlai_l1_runtime.Cameras.Config.{CameraConfig}
use vlai_l1_runtime.Cameras.Validator.{Validator}
use vlai_l1_runtime.Collection.Images.{
  Images, Image, ImageError, validate_camera_image, crop_camera_image,
}
use vlai_l1_runtime.Collection.Contract.{
  CollectionError, bad_now, recorded_roles, recorded, recording_camera_streams, observation_stale,
  action_stale, pair_skewed, observation_sequence, action_sequence, observation_features,
  action_features, values, ft_missing, ft_values, ft_time, ft_sequence_invalid, ft_stale, ft_skewed,
  ft_sequence, scale_missing, scale_weight, scale_status, scale_time, scale_sequence_invalid,
  scale_stale, scale_skewed, scale_sequence, image, overflow, key_error, CollectionConfig, names_of,
  image_key,
}
use vlai_l1_runtime.Collection.Sample.{
  FtSample, ScaleSample, CameraSample, CollectionSample, ValidatedSample,
}

-- The float arithmetic on times, and the two checks of embodied_ops, which raise where they are false.
pub record Seconds (F : Type 0) : Type 0 where
  -- `n / 1_000_000_000`
  pub seconds : ℤ → F
  -- `n > limit * 1_000_000_000`
  pub exceeds : ℕ → F → Bool
  -- `int(limit * 1_000_000_000)`
  pub nanoseconds : F → ℕ
  -- `require_fresh_sample` of a time, the time now and the greatest age
  pub is_fresh : (monotonic_s now_s max_age_s : F) → Bool
  -- `require_pair_skew` of two times and the greatest difference
  pub is_paired : (left_s right_s max_skew_s : F) → Bool

pub record Assembler (F : Type 0) : Type 0 where
  pub config : CollectionConfig F
  pub cameras : Validator
  pub last_observation_sequence : Option ℕ
  pub last_action_sequence : Option ℕ
  pub last_ft_sequence : Option ℕ
  pub last_scale_sequence : Option ℕ

-- `_require_increasing_sequence`
unfoldable pub require_increasing_sequence :
    ℕ → Option ℕ → CollectionError → Result CollectionError (Unit {0})
require_increasing_sequence value none e = ok tt
require_increasing_sequence value (some previous) e = guard (ltb previous value) e

abbrev pub difference : ℕ → ℕ → ℤ
difference a b = if leb b a then pos (a - b) else negsuc (b - a - 1)

abbrev pub gap : ℕ → ℕ → ℕ
gap a b = (a - b) + (b - a)

abbrev pub not_backward : Option ℕ → ℕ → Bool
not_backward none sequence = true
not_backward (some last) sequence = leb last sequence

-- A checked time and number: of the force sensor or the scale.
pub record Stamp : Type 0 where
  pub time : ℕ
  pub sequence : ℕ

abbrev natural_or : {F : Type 0} → Value F → CollectionError → Result CollectionError ℕ
natural_or v e = elim (natural v) [ none ↦ err e | some n ↦ ok n ]

abbrev positive_or : {F : Type 0} → Value F → CollectionError → Result CollectionError ℕ
positive_or v e = elim (natural v) [ none ↦ err e | some n ↦ if ltb 0 n then ok n else err e ]

abbrev bool_or : {F : Type 0} → Value F → CollectionError → Result CollectionError Bool
bool_or (bool b) e = ok b
bool_or _ e = err e

abbrev as_values : {A : Type 0} → Result Raised A → Result CollectionError A
as_values (ok a) = ok a
as_values (err e) = err (values e)

abbrev found_or_key_error : {A : Type 0} → Option A → Result CollectionError A
found_or_key_error none = err key_error
found_or_key_error (some a) = ok a

abbrev as_image : {A : Type 0} → Result ImageError A → Result CollectionError A
as_image (ok a) = ok a
as_image (err e) = err (image e)

abbrev present : {A : Type 0} → Option A → CollectionError → Result CollectionError A
present none e = err e
present (some a) e = ok a

-- `{stream.role: stream for stream in ...}`
abbrev pub stream_by_role : List CameraConfig → List (String × CameraConfig)
stream_by_role [] = []
stream_by_role (stream ∷ streams) = (stream.role, stream) ∷ stream_by_role streams

-- The loop over the recorded roles.
unfoldable pub take_images :
    {im : Images}
    → List String
    → List (String × CameraSample im)
    → List (String × CameraConfig)
    → Result CollectionError (List (String × Image im))
unfolding lookup validate_camera_image crop_camera_image
take_images [] cameras streams = ok []
take_images (role ∷ roles) cameras streams = do
  stream ← found_or_key_error (lookup role streams)
  sample ← found_or_key_error (lookup role cameras)
  as_image (validate_camera_image sample.image stream)
  cropped ← as_image (crop_camera_image sample.image stream)
  rest ← take_images roles cameras streams
  ok ((image_key role, cropped) ∷ rest)

-- What the checks before the cameras' find.
pub record Prepared (im : Images) (F : Type 0) : Type 0 where
  pub sample : ValidatedSample im F
  pub now : ℕ
  pub ft : Stamp
  pub scale : Stamp

module _ (fl : Floats) where
  open fl use {F, is_finite, of_int}

  -- `float(x)` of a number that `math.isfinite` lets pass; of a huge int, that is an OverflowError
  abbrev number_or : Value F → CollectionError → Result CollectionError F
  number_or (int z) e = elim (of_int z) [
    | none ↦ err overflow
    | some x ↦ if is_finite x then ok x else err e
  ]
  number_or (real x) e = if is_finite x then ok x else err e
  number_or _ e = err e

  unfoldable pub finite_values : List (Value F) → Result CollectionError (List F)
  finite_values [] = ok []
  finite_values (v ∷ vs) = do x ← number_or v ft_values; xs ← finite_values vs; ok (x ∷ xs)

  abbrev six_values : Option (List (Value F)) → Result CollectionError (List F)
  six_values none = err ft_values
  six_values (some vs) = if length vs == 6 then finite_values vs else err ft_values

module _ (fl : Floats) (tm : Seconds fl.F) where
  open fl use {F}

  -- The checks of the joints, up to the values.
  unfoldable pub check_joints :
      {im : Images}
      → Assembler F
      → CollectionSample im F
      → ℕ
      → Result CollectionError (List F × List F)
  unfolding require_increasing_sequence names_eq validate_named_values as_mapping
  check_joints s sample now = do
    let o : NamedJointVector F = sample.observation
    let a : NamedJointVector F = sample.action
    let now_s : F = tm.seconds (pos now)
    let o_s : F = tm.seconds (pos o.metadata.monotonic_ns)
    let a_s : F = tm.seconds (pos a.metadata.monotonic_ns)
    guard (tm.is_fresh o_s now_s s.config.max_sample_age_s) observation_stale
    guard (tm.is_fresh a_s now_s s.config.max_sample_age_s) action_stale
    guard (tm.is_paired o_s a_s s.config.max_state_action_skew_s) pair_skewed
    require_increasing_sequence o.metadata.source_sequence s.last_observation_sequence
        observation_sequence
    require_increasing_sequence a.metadata.source_sequence s.last_action_sequence action_sequence
    guard (names_eq o.feature_names (names_of s.config)) observation_features
    guard (names_eq a.feature_names (names_of s.config)) action_features
    state ← as_values (validate_named_values fl (names_of s.config) (as_mapping o.values))
    action ← as_values (validate_named_values fl (names_of s.config) (as_mapping a.values))
    ok (map (λ (kv : String × F). kv.1) state, map (λ (kv : String × F). kv.1) action)

  unfoldable pub check_ft :
      Assembler F → Option (FtSample F) → (robot now : ℕ) → Result CollectionError (List F × Stamp)
  unfolding require_increasing_sequence finite_values
  check_ft s sample robot now = do
    ft ← present sample ft_missing
    wrench ← six_values fl ft.values
    time ← natural_or ft.monotonic_ns ft_time
    guard (leb time now) ft_time
    sequence ← positive_or ft.sequence ft_sequence_invalid
    guard (not (tm.exceeds (now - time) s.config.max_sample_age_s)) ft_stale
    guard (not (tm.exceeds (gap time robot) s.config.max_ft_skew_s)) ft_skewed
    require_increasing_sequence sequence s.last_ft_sequence ft_sequence
    ok (wrench, record { time = time; sequence = sequence })

  unfoldable pub check_scale :
      Assembler F
      → Option (ScaleSample F)
      → (robot now : ℕ) → Result CollectionError (F × Bool × Bool × Bool × Stamp)
  check_scale s sample robot now = do
    scale ← present sample scale_missing
    weight ← number_or fl scale.weight_g scale_weight
    stable ← bool_or scale.stable scale_status
    tared ← bool_or scale.tared scale_status
    net ← bool_or scale.net scale_status
    guard (not (tared && net)) scale_status
    time ← natural_or scale.monotonic_ns scale_time
    guard (leb time robot) scale_time
    sequence ← positive_or scale.sequence scale_sequence_invalid
    guard (not (tm.exceeds (now - time) s.config.max_scale_age_s)) scale_stale
    guard (not (tm.exceeds (gap time robot) s.config.max_scale_skew_s)) scale_skewed
    guard (not_backward s.last_scale_sequence sequence) scale_sequence
    ok (weight, stable, tared, net, record { time = time; sequence = sequence })

  -- Everything that `validate` checks before the cameras' continuity.
  unfoldable pub prepare :
      {im : Images}
      → Assembler F
      → CollectionSample im F
      → Value F
      → Result CollectionError (Prepared im F)
  unfolding check_joints check_ft check_scale take_images recorded
  prepare s sample now_ns = do
    now ← natural_or now_ns bad_now
    let robot : ℕ = sample.observation.metadata.monotonic_ns
    joints ← check_joints s sample now
    ft ← check_ft s sample.ft robot now
    scale ← check_scale s sample.scale robot now
    guard (names_eq (keys sample.cameras) s.config.record_camera_roles) recorded_roles
    images ←
        (take_images s.config.record_camera_roles sample.cameras
          (stream_by_role (recording_camera_streams s.config)))
    ok (record {
      sample = record {
        state = joints.0;
        action = joints.1;
        images = images;
        ft_wrench = ft.0;
        ft_time_delta_s = tm.seconds (difference ft.1.time robot);
        scale_weight_g = scale.0;
        scale_time_delta_s = tm.seconds (difference scale.4.time robot);
        scale_stable = scale.1;
        scale_tared = scale.2;
        scale_net = scale.3;
      };
      now = now;
      ft = ft.1;
      scale = scale.4;
    })
