-- ===== src/Collection/Example.antt =====
-- A left arm with one camera, a sample of it, and arrays and pictures by their sizes.
use vlai_l1_runtime.Prelude.{
  ℕ, ◌-◌, ◌*◌, String, true, false, none, some, List, [], ◌∷◌, map, leb, ltb,
}
use vlai_l1_runtime.Prelude.Int.{ℤ, pos, negsuc}
use vlai_l1_runtime.Prelude.Value.{bool}
use vlai_l1_runtime.Contracts.{NamedJointVector, side_features}
use vlai_l1_runtime.Cameras.Example.{at, config}
use vlai_l1_runtime.Collection.Images.{Images, array}
use vlai_l1_runtime.Collection.Contract.{CollectionConfig}
use vlai_l1_runtime.Collection.Sample.{CollectionSample, ValidatedSample}
use vlai_l1_runtime.Collection.Checks.{Seconds, Assembler}

abbrev pub sliced : (y bottom x right : ℕ) → List ℕ → List ℕ
sliced y bottom x right (height ∷ width ∷ rest) = (bottom - y) ∷ (right - x) ∷ rest
sliced y bottom x right shape = shape

-- Arrays by their shape and type, and pictures by their size and mode.
abbrev pub sizes : Images
sizes = record {
  Array = List ℕ × String;
  Picture = (ℕ × ℕ) × String;
  shape = λ a. a.0;
  dtype = λ a. a.1;
  slice = λ a y bottom x right. (sliced y bottom x right a.0, a.1);
  size = λ p. p.0;
  mode = λ p. p.1;
  crop = λ p x y right bottom. ((right - x, bottom - y), p.1);
}

abbrev seconds : ℤ → ℕ
seconds (pos n) = n
seconds (negsuc n) = 0

abbrev pub times : Seconds ℕ
times = record {
  seconds = seconds;
  exceeds = λ n limit. ltb (limit * 1000000000) n;
  nanoseconds = λ limit. limit * 1000000000;
  is_fresh = λ t now limit. leb t now;
  is_paired = λ a b limit. true;
}

abbrev pub settings : CollectionConfig ℕ
settings = record {
  streams = config.streams;
  max_sample_age_s = 1;
  max_state_action_skew_s = 1;
  max_robot_camera_skew_s = 1;
  max_ft_skew_s = 1;
  max_scale_age_s = 1;
  max_scale_skew_s = 1;
  teleoperation_sides = "left" ∷ [];
  record_camera_roles = "wrist_left" ∷ [];
}

abbrev pub new : Assembler ℕ
new = record {
  config = settings;
  cameras = record {
    max_age_ns = 2000000000;
    max_skew_ns = 1000000000;
    enabled = ("wrist_left", record { role = "wrist_left"; device_id = some "a" }) ∷ [];
    previous = none;
    pending = none;
  };
  last_observation_sequence = none;
  last_action_sequence = none;
  last_ft_sequence = none;
  last_scale_sequence = none;
}

abbrev pose : ℕ → NamedJointVector ℕ
pose time = record {
  values = map (λ name. (name, 7)) (side_features "left");
  metadata = record { source_sequence = 4; monotonic_ns = time };
  feature_names = side_features "left";
}

abbrev pub sample : CollectionSample sizes ℕ
sample = record {
  observation = pose 100;
  action = pose 90;
  cameras =
      (
        "wrist_left",
        record {
          metadata = record {
            role = "wrist_left";
            device_id = "a";
            stream_epoch = "e";
            source_sequence = 0;
            monotonic_ns = 95;
          };
          image = array (480 ∷ 640 ∷ 3 ∷ [], "uint8");
        },
      )
      ∷ [];
  ft = some (record {
    values = some (at 1 ∷ at 2 ∷ at 3 ∷ at 4 ∷ at 5 ∷ at 6 ∷ []);
    monotonic_ns = at 99;
    sequence = at 3;
  });
  scale = some (record {
    weight_g = at 250;
    stable = bool true;
    tared = bool false;
    net = bool true;
    monotonic_ns = at 80;
    sequence = at 2;
  });
}

abbrev pub accepted : ValidatedSample sizes ℕ
accepted = record {
  state = 7 ∷ 7 ∷ 7 ∷ 7 ∷ 7 ∷ 7 ∷ 7 ∷ 7 ∷ [];
  action = 7 ∷ 7 ∷ 7 ∷ 7 ∷ 7 ∷ 7 ∷ 7 ∷ 7 ∷ [];
  images = ("observation.images.wrist_left", array (300 ∷ 200 ∷ 3 ∷ [], "uint8")) ∷ [];
  ft_wrench = 1 ∷ 2 ∷ 3 ∷ 4 ∷ 5 ∷ 6 ∷ [];
  ft_time_delta_s = 0;
  scale_weight_g = 250;
  scale_time_delta_s = 0;
  scale_stable = true;
  scale_tared = false;
  scale_net = true;
}
