-- ===== src/Cameras/Config.antt =====
-- `ImageRoi`, `CameraConfig` and `CamerasConfig` of configuration.py: their checks.
use vlai_l1_runtime.Prelude.{
  ℕ, ◌+◌, String, Bool, true, false, not, ◌&&◌, ◌||◌, Option, none, some, List, [], ◌∷◌, map, any,
  all, ltb, leb, ◌==◌, str_eq, if◌then◌else◌,
}
use vlai_l1_runtime.Prelude.Int.{ℤ, pos, negsuc}
use vlai_l1_runtime.Prelude.Result.{Result, ok, err, ◌>>=◌, ◌>>◌, guard}
use vlai_l1_runtime.Prelude.Value.{
  Floats, Value, absent, bool, int, real, text, natural, Received, instance_of,
}
use vlai_l1_runtime.Contracts.{contains, unique, names_eq, require_normalized}

pub data ConfigError : Type 0 where
  unknown_role required_not_bool enabled_not_bool bad_size unknown_driver : ConfigError
  bad_device_id device_missing driver_missing device_unexpected : ConfigError
  bad_video_index video_index_missing video_index_unexpected : ConfigError
  bad_exposure_mode exposure_unsupported bad_exposure exposure_unexpected : ConfigError
  bad_crop crop_negative crop_empty crop_outside crop_not_square : ConfigError
  bad_time skew_above_age bad_roles none_required devices_repeated : ConfigError
  overflow : ConfigError

pub data Driver : Type 0 where
  v4l2 unassigned : Driver

pub record ImageRoi : Type 0 where
  pub x : ℤ
  pub y : ℤ
  pub width : ℤ
  pub height : ℤ

-- A region that passed `validate`, by its numbers.
pub record Region : Type 0 where
  pub left : ℕ
  pub top : ℕ
  pub wide : ℕ
  pub high : ℕ

abbrev at_least : ℕ → ℤ → ConfigError → Result ConfigError ℕ
at_least low (pos n) e = if leb low n then ok n else err e
at_least low (negsuc n) e = err e

-- `ImageRoi.validate`
unfoldable pub validate_roi : ImageRoi → (image_width image_height : ℕ) → Result ConfigError Region
validate_roi roi image_width image_height = do
  x ← at_least 0 roi.x crop_negative
  y ← at_least 0 roi.y crop_negative
  width ← at_least 1 roi.width crop_empty
  height ← at_least 1 roi.height crop_empty
  guard (leb (x + width) image_width && leb (y + height) image_height) crop_outside
  ok (record { left = x; top = y; wide = width; high = height })

-- The attributes of a `CameraConfig` before they are checked. Where the code looks a value up in a
-- set, it is a hashable one.
pub record CameraFields (F : Type 0) : Type 0 where
  pub role : Value F
  pub required_for_collection : Value F
  pub enabled : Value F
  pub width : Value F
  pub height : Value F
  pub fps : Value F
  pub driver : Value F
  pub device_id : Value F
  pub video_index : Value F
  pub crop : Option (Received ImageRoi)
  pub exposure_mode : Value F
  pub exposure_absolute : Value F

pub record CameraConfig : Type 0 where
  pub role : String
  pub required_for_collection : Bool
  pub enabled : Bool
  pub width : ℕ
  pub height : ℕ
  pub fps : ℕ
  pub driver : Driver
  pub device_id : Option String
  pub video_index : Option ℕ
  pub crop : Option Region
  pub manual_exposure : Option ℕ

-- `CAMERA_ROLES`
abbrev pub camera_roles : List String
camera_roles = "wrist_left" ∷ "wrist_right" ∷ "agent" ∷ []

abbrev pub is_v4l2 : Driver → Bool
is_v4l2 v4l2 = true
is_v4l2 unassigned = false

abbrev pub is_some_of {ℓ} : {A : Type ℓ} → Option A → Bool
is_some_of none = false
is_some_of (some a) = true

abbrev normalized : Option String → Result ConfigError (Option String)
normalized none = err bad_device_id
normalized (some s) = ok (some s)

module _ {F : Type 0} where
  abbrev role_of : Value F → Result ConfigError String
  role_of (text s) = if contains s camera_roles then ok s else err unknown_role
  role_of _ = err unknown_role

  abbrev bool_of : Value F → ConfigError → Result ConfigError Bool
  bool_of (bool b) e = ok b
  bool_of _ e = err e

  abbrev positive_of : Value F → ConfigError → Result ConfigError ℕ
  positive_of (int (pos n)) e = if ltb 0 n then ok n else err e
  positive_of _ e = err e

  -- `CAMERA_DRIVERS`
  abbrev driver_of : Value F → Result ConfigError Driver
  driver_of (text s) =
      if str_eq s "v4l2"
      then ok v4l2
      else if str_eq s "unassigned"
      then ok unassigned
      else err unknown_driver
  driver_of _ = err unknown_driver

  abbrev device_of : Value F → Result ConfigError (Option String)
  device_of absent = ok none
  device_of v = normalized (require_normalized v)

  abbrev index_of : Value F → Result ConfigError (Option ℕ)
  index_of absent = ok none
  index_of v = elim (natural v) [ none ↦ err bad_video_index | some n ↦ ok (some n) ]

  abbrev is_manual : Value F → Result ConfigError Bool
  is_manual (text s) =
      if str_eq s "device"
      then ok false
      else if str_eq s "manual"
      then ok true
      else err bad_exposure_mode
  is_manual _ = err bad_exposure_mode

  abbrev manual_exposure_of : Bool → Value F → Result ConfigError (Option ℕ)
  manual_exposure_of supported v =
      if not supported
      then err exposure_unsupported
      else elim (positive_of v bad_exposure) [ err e ↦ err e | ok n ↦ ok (some n) ]

  abbrev device_exposure_of : Value F → Result ConfigError (Option ℕ)
  device_exposure_of absent = ok none
  device_exposure_of _ = err exposure_unexpected

abbrev square_if_agent : String → Region → Result ConfigError (Option Region)
square_if_agent role region =
    if str_eq role "agent" && not (region.wide == region.high)
    then err crop_not_square
    else ok (some region)

unfoldable pub crop_of :
    String → (width height : ℕ) → Option (Received ImageRoi) → Result ConfigError (Option Region)
unfolding validate_roi
crop_of role width height none = ok none
crop_of role width height (some (instance_of roi)) =
    validate_roi roi width height >>= λ region. square_if_agent role region
crop_of role width height (some _) = err bad_crop

-- The tests that relate the device, the driver and the index to `enabled`.
unfoldable pub check_device :
    (enabled : Bool) → Driver → Option String → Result ConfigError (Unit {0})
check_device enabled driver device_id = do
  guard (not (enabled && not (is_some_of device_id))) device_missing
  guard (not (enabled && not (is_v4l2 driver))) driver_missing
  guard (not (not enabled && is_some_of device_id)) device_unexpected

unfoldable pub check_index : (enabled : Bool) → Driver → Option ℕ → Result ConfigError (Unit {0})
check_index enabled driver video_index = do
  guard (not (enabled && is_v4l2 driver && not (is_some_of video_index))) video_index_missing
  guard (not (not (is_v4l2 driver) && is_some_of video_index)) video_index_unexpected

-- `CameraConfig.__post_init__`
unfoldable pub make_camera_config : {F : Type 0} → CameraFields F → Result ConfigError CameraConfig
unfolding contains require_normalized check_device check_index crop_of
make_camera_config c = do
  role ← role_of c.role
  required ← bool_of c.required_for_collection required_not_bool
  enabled ← bool_of c.enabled enabled_not_bool
  width ← positive_of c.width bad_size
  height ← positive_of c.height bad_size
  fps ← positive_of c.fps bad_size
  driver ← driver_of c.driver
  device_id ← device_of c.device_id
  check_device enabled driver device_id
  video_index ← index_of c.video_index
  check_index enabled driver video_index
  manual ← is_manual c.exposure_mode
  exposure ←
      (if manual
        then manual_exposure_of (is_v4l2 driver && enabled) c.exposure_absolute
        else device_exposure_of c.exposure_absolute)
  crop ← crop_of role width height c.crop
  ok (record {
    role = role;
    required_for_collection = required;
    enabled = enabled;
    width = width;
    height = height;
    fps = fps;
    driver = driver;
    device_id = device_id;
    video_index = video_index;
    crop = crop;
    manual_exposure = exposure;
  })

pub record CamerasFields (F : Type 0) : Type 0 where
  pub max_age_s : Value F
  pub max_pair_skew_s : Value F
  pub startup_timeout_s : Value F
  pub streams : List (CameraFields F)

pub record CamerasConfig (F : Type 0) : Type 0 where
  pub max_age_s : F
  pub max_pair_skew_s : F
  pub startup_timeout_s : F
  pub streams : List CameraConfig

abbrev pub enabled_devices : List CameraConfig → List String
enabled_devices [] = []
enabled_devices (stream ∷ streams) =
    let rest = enabled_devices streams in
    if stream.enabled then elim stream.device_id [ none ↦ rest | some d ↦ d ∷ rest ] else rest

unfoldable pub make_cameras :
    {F : Type 0} → List (CameraFields F) → Result ConfigError (List CameraConfig)
unfolding make_camera_config
make_cameras [] = ok []
make_cameras (c ∷ cs) = do
  camera ← make_camera_config c
  cameras ← make_cameras cs
  ok (camera ∷ cameras)

-- `collection_ready`
abbrev pub collection_ready : List CameraConfig → Bool
collection_ready streams =
    all (λ (c : CameraConfig). not c.required_for_collection || c.enabled) streams

module _ (fl : Floats) where
  open fl use {F, is_finite, of_int, lt, zero_value}

  abbrev positive_float : F → Result ConfigError F
  positive_float x = if is_finite x && lt zero_value x then ok x else err bad_time

  -- An int is kept as the float that equals it.
  abbrev positive_seconds : Value F → Result ConfigError F
  positive_seconds (int z) = elim (of_int z) [ none ↦ err overflow | some x ↦ positive_float x ]
  positive_seconds (real x) = positive_float x
  positive_seconds _ = err bad_time

  -- `CamerasConfig.__post_init__`, on streams that have passed their own
  unfoldable pub make_cameras_config : CamerasFields F → Result ConfigError (CamerasConfig F)
  unfolding make_cameras names_eq unique
  make_cameras_config c = do
    streams ← make_cameras c.streams
    max_age ← positive_seconds c.max_age_s
    max_skew ← positive_seconds c.max_pair_skew_s
    startup ← positive_seconds c.startup_timeout_s
    guard (not (lt max_age max_skew)) skew_above_age
    guard (names_eq (map (λ (s : CameraConfig). s.role) streams) camera_roles) bad_roles
    guard (any (λ (s : CameraConfig). s.required_for_collection) streams) none_required
    guard (unique (enabled_devices streams)) devices_repeated
    ok (record {
      max_age_s = max_age;
      max_pair_skew_s = max_skew;
      startup_timeout_s = startup;
      streams = streams;
    })
