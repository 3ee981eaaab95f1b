-- ===== src/Collection/Tests.antt =====
-- An episode of one sample from the left side, and a refused sample.
use vlai_l1_runtime.Prelude.{
  ℕ, ◌<◌, ◌≡◌, ◌≢◌, refl, ap, String, Bool, true, false, none, some, List, [], ◌∷◌, ◌++◌, map, All,
  arith,
}
use vlai_l1_runtime.Prelude.Text.{is_normalized}
use vlai_l1_runtime.Prelude.Result.{ok, err}
use vlai_l1_runtime.Prelude.Naturals.{naturals}
use vlai_l1_runtime.Prelude.Value.{text, instance_of}
use vlai_l1_runtime.Contracts.{side_features, unique}
use vlai_l1_runtime.Cameras.Config.{CameraConfig, make_cameras_config}
use vlai_l1_runtime.Cameras.Validator.{
  check_set, frame_items, check_frames, check_frame, check_identity, check_continuity,
}
use vlai_l1_runtime.Cameras.Frames.{snapshot_frame_metadata}
use vlai_l1_runtime.Cameras.Configured.{IsConfigured, make_cameras_config-AreConfigured}
use vlai_l1_runtime.Cameras.Example.{at, fields, config}
use vlai_l1_runtime.Collection.Images.{HasCuts, array}
use vlai_l1_runtime.Collection.Contract.{
  observation_stale, camera_skewed, empty_error, Feature, float32, video, ft_axis_names, features,
  canonical_dataset_contract, recorded, recording_camera_streams,
}
use vlai_l1_runtime.Collection.Sample.{vector, shown, task, lerobot_frame}
use vlai_l1_runtime.Collection.Assembler.{make_assembler, validate_sample}
use vlai_l1_runtime.Collection.Accepted.{IsCurrent, validate_sample-IsCurrent, validate_sample-err}
use vlai_l1_runtime.Collection.Conformance.{Conforms, lerobot_frame-Conforms}
use vlai_l1_runtime.Collection.Events.{Rising, numbers, numbers-Rising}
use vlai_l1_runtime.Collection.Episode.{save, EpisodeSink, EpisodeResult, FrameOf, record_episode}
use vlai_l1_runtime.Collection.Recorded.{HasLog, Written, Ended, record_episode-Ended}
use vlai_l1_runtime.Collection.Example.{sliced, sizes, times, settings, new, sample, accepted}

settings-new : make_assembler naturals times settings (instance_of fields) ≡ ok new
unfolding make_assembler is_normalized make_cameras_config
settings-new = refl

sample-accepted : (validate_sample naturals times sample (at 110) new).0 ≡ ok accepted
unfolding validate_sample is_normalized check_set frame_items check_frames snapshot_frame_metadata
    check_frame check_identity check_continuity
sample-accepted = refl

validate_sample-IsCurrent_example : IsCurrent naturals times new sample (at 110) accepted
validate_sample-IsCurrent_example =
    (validate_sample-IsCurrent naturals times sample (at 110) new accepted sample-accepted).0

-- At 95, the observation is from the future.
sample-refused : (validate_sample naturals times sample (at 95) new).0 ≡ err observation_stale
unfolding validate_sample
sample-refused = refl

observation_stale-ne_skewed : observation_stale ≢ camera_skewed
observation_stale-ne_skewed = ground arith

observation_stale-ne_empty : observation_stale ≢ empty_error
observation_stale-ne_empty = ground arith

validate_sample-err_example : (validate_sample naturals times sample (at 95) new).1 ≡ new
validate_sample-err_example =
    validate_sample-err naturals times sample (at 95) new observation_stale sample-refused
      observation_stale-ne_skewed observation_stale-ne_empty

numbers-Rising_example :
    Rising (none, none) (numbers naturals times ((sample, at 95) ∷ (sample, at 110) ∷ []) new)
numbers-Rising_example =
    numbers-Rising naturals times settings (instance_of fields) new settings-new
      ((sample, at 95) ∷ (sample, at 110) ∷ [])

cut_sizes : HasCuts sizes
cut_sizes = record {
  slice_shape = λ a height width depth y bottom x right h k l. ap (sliced y bottom x right) h;
  slice_dtype = λ a y bottom x right. refl;
  crop_size = λ p x y right bottom. refl;
  crop_mode = λ p x y right bottom. refl;
}

-- `float(b)`
abbrev of_bool : Bool → ℕ
of_bool true = 1
of_bool false = 0

abbrev single : ℕ → ℕ
single x = x

abbrev entries : FrameOf sizes ℕ
entries =
    ("observation.state", vector (7 ∷ 7 ∷ 7 ∷ 7 ∷ 7 ∷ 7 ∷ 7 ∷ 7 ∷ []))
    ∷ ("action", vector (7 ∷ 7 ∷ 7 ∷ 7 ∷ 7 ∷ 7 ∷ 7 ∷ 7 ∷ []))
    ∷ ("observation.ft_wrench", vector (1 ∷ 2 ∷ 3 ∷ 4 ∷ 5 ∷ 6 ∷ []))
    ∷ ("observation.ft_time_delta_s", vector (0 ∷ []))
    ∷ ("observation.scale_weight_g", vector (250 ∷ []))
    ∷ ("observation.scale_time_delta_s", vector (0 ∷ []))
    ∷ ("observation.scale_stable", vector (1 ∷ []))
    ∷ ("observation.scale_tared", vector (0 ∷ []))
    ∷ ("observation.scale_net", vector (1 ∷ []))
    ∷ ("observation.images.wrist_left", shown (array (300 ∷ 200 ∷ 3 ∷ [], "uint8")))
    ∷ ("task", task (112 ∷ 105 ∷ 99 ∷ 107 ∷ []))
    ∷ []

accepted-entries : lerobot_frame single of_bool accepted (text " pick") ≡ ok entries
unfolding lerobot_frame
accepted-entries = refl

abbrev declared : List (String × Feature)
declared =
    ("observation.state", float32 (side_features "left"))
    ∷ ("action", float32 (side_features "left"))
    ∷ ("observation.ft_wrench", float32 ft_axis_names)
    ∷ ("observation.ft_time_delta_s", float32 ("ft_minus_robot_s" ∷ []))
    ∷ ("observation.scale_weight_g", float32 ("weight_g" ∷ []))
    ∷ ("observation.scale_time_delta_s", float32 ("scale_minus_robot_s" ∷ []))
    ∷ ("observation.scale_stable", float32 ("status_is_ST" ∷ []))
    ∷ ("observation.scale_tared", float32 ("mode_is_TR" ∷ []))
    ∷ ("observation.scale_net", float32 ("mode_is_NT" ∷ []))
    ∷ ("observation.images.wrist_left", video 300 200)
    ∷ []

settings-declared : features (canonical_dataset_contract settings) ≡ ok declared
unfolding features canonical_dataset_contract
settings-declared = refl

fields-config : make_cameras_config naturals fields ≡ ok config
unfolding make_cameras_config is_normalized
fields-config = refl

config-IsConfigured : All IsConfigured config.streams
config-IsConfigured =
    (make_cameras_config-AreConfigured naturals fields config fields-config).cameras

settings-ordered :
    map (λ (c : CameraConfig). c.role) (recording_camera_streams settings)
    ≡ settings.record_camera_roles
unfolding recorded
settings-ordered = refl

settings-unique : unique settings.record_camera_roles ≡ true
unfolding unique
settings-unique = refl

lerobot_frame-Conforms_example : Conforms {im = sizes} {F = ℕ} declared entries
lerobot_frame-Conforms_example =
    lerobot_frame-Conforms naturals times cut_sizes single of_bool new config-IsConfigured
      settings-ordered settings-unique sample (at 110) accepted (text " pick") entries declared
      sample-accepted accepted-entries settings-declared

-- A sink that keeps its frames in a list, and commits to a numbered directory.
abbrev in_memory : EpisodeSink (FrameOf sizes ℕ) ℕ (Unit {0})
in_memory = record {
  State = List (FrameOf sizes ℕ);
  add_frame = λ f k. (ok tt, k ++ f ∷ []);
  commit = λ k. (ok 12, k);
  discard_frames = λ k. (ok tt, []);
}

in_memory-HasLog : HasLog in_memory
in_memory-HasLog = record { log = λ k. k; add_frame_log = λ f k h. refl }

abbrev result : EpisodeResult ℕ
result = record { decision = save; frame_count = 1; dataset_root = some 12 }

episode-result :
    (record_episode naturals times single of_bool in_memory
      ((sample, at 110) ∷ [])
      (text "pick")
      (some save)
      (new, [])).0
    ≡ ok result
unfolding record_episode is_normalized lerobot_frame validate_sample check_set frame_items
    check_frames snapshot_frame_metadata check_frame check_identity check_continuity
episode-result = refl

record_episode-Ended_example :
    (fs : List (FrameOf sizes ℕ)) × Written naturals times single of_bool in_memory
      (text "pick")
      ((sample, at 110) ∷ [])
      new
      fs
    × (some save ≡ some result.decision)
    × (result.frame_count ≡ 1)
    × (0 < 1)
    × Ended naturals times single of_bool in_memory in_memory-HasLog [] fs result
        (record_episode naturals times single of_bool in_memory
          ((sample, at 110) ∷ [])
          (text "pick")
          (some save)
          (new, [])).1.1
record_episode-Ended_example =
    record_episode-Ended naturals times single of_bool in_memory in_memory-HasLog
      ((sample, at 110) ∷ []) (text "pick") (some save) new [] result episode-result
