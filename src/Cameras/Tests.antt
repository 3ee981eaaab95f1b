-- ===== src/Cameras/Tests.antt =====
-- Two enabled cameras: their configuration, two sets of frames, and a restart.
use vlai_l1_runtime.Prelude.{ℕ, ◌*◌, ◌≡◌, ◌≢◌, refl, String, none, some, List, [], ◌∷◌, All}
use vlai_l1_runtime.Prelude.Text.{is_normalized}
use vlai_l1_runtime.Prelude.Result.{ok}
use vlai_l1_runtime.Prelude.Naturals.{naturals}
use vlai_l1_runtime.Prelude.Value.{Value, text, Received, instance_of}
use vlai_l1_runtime.Contracts.{mapping}
use vlai_l1_runtime.Cameras.Config.{make_cameras_config}
use vlai_l1_runtime.Cameras.Frames.{
  key_error, FrameFields, CameraFrameMetadata, snapshot_frame_metadata,
}
use vlai_l1_runtime.Cameras.Validator.{
  Validator, FrameMapping, frames, check_frames, check_set, validate, make_validator,
  check_identity, frame_items, check_frame, check_continuity,
}
use vlai_l1_runtime.Cameras.Accepted.{as_previous, IsCoherent, validate-IsCoherent}
use vlai_l1_runtime.Cameras.Configured.{AreConfigured, make_cameras_config-AreConfigured}
use vlai_l1_runtime.Cameras.Example.{at, fields, config}
use vlai_l1_runtime.Cameras.Ascending.{Ascend, sets-Ascend}
use vlai_l1_runtime.Cameras.Events.{
  Call, validating, resetting, exceptions, sets, exceptions_ne_key_error,
}

fields-config : make_cameras_config naturals fields ≡ ok config
unfolding make_cameras_config is_normalized
fields-config = refl

make_cameras_config-AreConfigured_example : AreConfigured naturals config
make_cameras_config-AreConfigured_example =
    make_cameras_config-AreConfigured naturals fields config fields-config

abbrev nanoseconds : ℕ → ℕ
nanoseconds n = n * 1000000000

abbrev fresh : Validator
fresh = record {
  max_age_ns = 2000000000;
  max_skew_ns = 1000000000;
  enabled =
      ("wrist_left", record { role = "wrist_left"; device_id = some "a" })
      ∷ ("wrist_right", record { role = "wrist_right"; device_id = some "b" })
      ∷ [];
  previous = none;
  pending = none;
}

fields-fresh : make_validator naturals nanoseconds (instance_of fields) none ≡ ok fresh
unfolding make_validator make_cameras_config is_normalized
fields-fresh = refl

abbrev frame : (role device epoch : String) → ℕ → ℕ → Value ℕ × Received (FrameFields ℕ)
frame role device epoch sequence time = (
  text role,
  instance_of (record {
    role = text role;
    device_id = text device;
    stream_epoch = text epoch;
    source_sequence = at sequence;
    monotonic_ns = at time;
  }),
)

abbrev set : (epoch : String) → ℕ → ℕ → FrameMapping ℕ
set epoch sequence time =
    frames
      (frame "wrist_left" "a" epoch sequence time ∷ frame "wrist_right" "b" "e" sequence time ∷ [])

abbrev calls : List (Call ℕ)
calls =
    validating (set "e" 0 100) (at 120)
    ∷ validating (set "e" 0 200) (at 220)
    ∷ resetting (mapping ((text "wrist_left", text "f") ∷ []))
    ∷ validating (set "f" 7 300) (at 320)
    ∷ []

exceptions_ne_key_error_example : All (λ e. e ≢ some key_error) (exceptions calls fresh)
exceptions_ne_key_error_example =
    exceptions_ne_key_error naturals nanoseconds (instance_of fields) none fresh fields-fresh calls

sets-Ascend_example : Ascend none (sets calls fresh)
sets-Ascend_example =
    sets-Ascend naturals nanoseconds (instance_of fields) none fresh fields-fresh calls

abbrev read : (role device : String) → CameraFrameMetadata
read role device = record {
  role = role;
  device_id = device;
  stream_epoch = "e";
  source_sequence = 0;
  monotonic_ns = 100;
}

abbrev first : List (String × CameraFrameMetadata)
first = ("wrist_left", read "wrist_left" "a") ∷ ("wrist_right", read "wrist_right" "b") ∷ []

set-first : (validate (set "e" 0 100) (at 120) fresh).0 ≡ ok first
unfolding validate snapshot_frame_metadata is_normalized check_set frame_items check_frames
    check_frame check_identity check_continuity
set-first = refl

validate-IsCoherent_example :
    IsCoherent {F = ℕ} fresh (at 120) first
    × ((validate (set "e" 0 100) (at 120) fresh).1
        ≡ record fresh { previous = some (as_previous first); pending = none })
validate-IsCoherent_example = validate-IsCoherent fresh (set "e" 0 100) (at 120) first set-first
