-- ===== src/Cameras/Example.antt =====
-- Two enabled cameras, for the tests of those that use them.
use vlai_l1_runtime.Prelude.{ℕ, String, true, false, none, some, [], ◌∷◌}
use vlai_l1_runtime.Prelude.Int.{pos}
use vlai_l1_runtime.Prelude.Value.{Value, absent, bool, int, text, instance_of}
use vlai_l1_runtime.Cameras.Config.{
  v4l2, unassigned, CameraFields, CameraConfig, CamerasFields, CamerasConfig,
}

abbrev pub at : ℕ → Value ℕ
at n = int (pos n)

abbrev pub wrist : (role device : String) → CameraFields ℕ
wrist role device = record {
  role = text role;
  required_for_collection = bool true;
  enabled = bool true;
  width = at 640;
  height = at 480;
  fps = at 30;
  driver = text "v4l2";
  device_id = text device;
  video_index = at 0;
  crop = some (instance_of (record { x = pos 10; y = pos 0; width = pos 200; height = pos 300 }));
  exposure_mode = text "manual";
  exposure_absolute = at 156;
}

abbrev pub agent : CameraFields ℕ
agent = record {
  role = text "agent";
  required_for_collection = bool false;
  enabled = bool false;
  width = at 640;
  height = at 480;
  fps = at 30;
  driver = text "unassigned";
  device_id = absent;
  video_index = absent;
  crop = none;
  exposure_mode = text "device";
  exposure_absolute = absent;
}

abbrev pub fields : CamerasFields ℕ
fields = record {
  max_age_s = at 2;
  max_pair_skew_s = at 1;
  startup_timeout_s = at 5;
  streams = wrist "wrist_left" "a" ∷ wrist "wrist_right" "b" ∷ agent ∷ [];
}

abbrev pub camera : (role device : String) → CameraConfig
camera role device = record {
  role = role;
  required_for_collection = true;
  enabled = true;
  width = 640;
  height = 480;
  fps = 30;
  driver = v4l2;
  device_id = some device;
  video_index = some 0;
  crop = some (record { left = 10; top = 0; wide = 200; high = 300 });
  manual_exposure = some 156;
}

abbrev pub no_camera : CameraConfig
no_camera = record {
  role = "agent";
  required_for_collection = false;
  enabled = false;
  width = 640;
  height = 480;
  fps = 30;
  driver = unassigned;
  device_id = none;
  video_index = none;
  crop = none;
  manual_exposure = none;
}

abbrev pub config : CamerasConfig ℕ
config = record {
  max_age_s = 2;
  max_pair_skew_s = 1;
  startup_timeout_s = 5;
  streams = camera "wrist_left" "a" ∷ camera "wrist_right" "b" ∷ no_camera ∷ [];
}
