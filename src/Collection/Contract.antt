-- ===== src/Collection/Contract.antt =====
-- The dataset contract of schema.py, and what of the collection's configuration it reads.
use Prim.Native.String.{◌++◌ as str_append}
use vlai_l1_runtime.Prelude.{
  ℕ, String, Bool, true, false, not, ◌&&◌, ◌||◌, List, [], ◌∷◌, map, any, ◌==◌, if◌then◌else◌,
}
use vlai_l1_runtime.Prelude.Result.{Result, ok, err, ◌>>=◌, ◌>>◌, guard}
use vlai_l1_runtime.Prelude.Text.{codes, strip}
use vlai_l1_runtime.Prelude.Value.{Value, text}
use vlai_l1_runtime.Contracts.{Raised, contains, unique, flat_features}
use vlai_l1_runtime.Cameras.Config.{CameraConfig}
use vlai_l1_runtime.Cameras.Frames.{CameraError}
use vlai_l1_runtime.Collection.Images.{ImageError, height_of, width_of}

-- Each `raise`, with what it passes on; `overflow` is an OverflowError, `key_error` a KeyError,
-- `attribute_error` an AttributeError and `empty_error` the ValueError of `max` of nothing.
pub data CollectionError : Type 0 where
  joints_malformed cameras_type camera_type image_missing metadata_malformed ft_type scale_type :
      CollectionError
  bad_now observation_stale action_stale pair_skewed : CollectionError
  observation_sequence action_sequence observation_features action_features : CollectionError
  values : Raised → CollectionError
  ft_missing ft_values ft_time ft_sequence_invalid ft_stale ft_skewed ft_sequence : CollectionError
  scale_missing scale_weight scale_status scale_time scale_sequence_invalid scale_stale :
      CollectionError
  scale_skewed scale_sequence : CollectionError
  recorded_roles : CollectionError
  image : ImageError → CollectionError
  camera : CameraError → CollectionError
  camera_skewed : CollectionError
  bad_task bad_feature_names : CollectionError
  overflow key_error attribute_error empty_error : CollectionError

-- The fields of a `CollectionConfig` that are read here.
pub record CollectionConfig (F : Type 0) : Type 0 where
  pub streams : List CameraConfig
  pub max_sample_age_s : F
  pub max_state_action_skew_s : F
  pub max_robot_camera_skew_s : F
  pub max_ft_skew_s : F
  pub max_scale_age_s : F
  pub max_scale_skew_s : F
  pub teleoperation_sides : List String
  pub record_camera_roles : List String

-- `CollectionConfig.feature_names`
abbrev pub names_of : {F : Type 0} → CollectionConfig F → List String
names_of c = flat_features c.teleoperation_sides

-- `recording_camera_streams`
unfoldable pub recorded : List CameraConfig → List String → List CameraConfig
unfolding contains
recorded [] roles = []
recorded (stream ∷ streams) roles =
    let rest = recorded streams roles in if contains stream.role roles then stream ∷ rest else rest

abbrev pub recording_camera_streams : {F : Type 0} → CollectionConfig F → List CameraConfig
recording_camera_streams c = recorded c.streams c.record_camera_roles

pub record CameraSpec : Type 0 where
  pub role : String
  pub height : ℕ
  pub width : ℕ

pub record DatasetContract : Type 0 where
  pub state_names : List String
  pub action_names : List String
  pub cameras : List CameraSpec

-- A feature's description: float32 values of these names, or a video of this height and width.
pub data Feature : Type 0 where
  float32 : List String → Feature
  video : (height width : ℕ) → Feature

-- `feature_key`
abbrev pub image_key : String → String
image_key role = str_append "observation.images." role

abbrev pub ft_axis_names : List String
ft_axis_names = "fx_n" ∷ "fy_n" ∷ "fz_n" ∷ "mx_nm" ∷ "my_nm" ∷ "mz_nm" ∷ []

abbrev is_empty : List String → Bool
is_empty [] = true
is_empty (x ∷ xs) = false

-- `_vector_feature`
unfoldable pub vector_feature : List String → Result CollectionError Feature
unfolding unique
vector_feature names = do
  guard (not (is_empty names) && unique names) bad_feature_names
  ok (float32 names)

abbrev pub camera_feature : CameraSpec → String × Feature
camera_feature spec = (image_key spec.role, video spec.height spec.width)

-- `DatasetContract.features`, its items in order
unfoldable pub features : DatasetContract → Result CollectionError (List (String × Feature))
unfolding vector_feature
features contract = do
  state ← vector_feature contract.state_names
  action ← vector_feature contract.action_names
  wrench ← vector_feature ft_axis_names
  ft_delta ← vector_feature ("ft_minus_robot_s" ∷ [])
  weight ← vector_feature ("weight_g" ∷ [])
  scale_delta ← vector_feature ("scale_minus_robot_s" ∷ [])
  stable ← vector_feature ("status_is_ST" ∷ [])
  tared ← vector_feature ("mode_is_TR" ∷ [])
  net ← vector_feature ("mode_is_NT" ∷ [])
  ok (
      ("observation.state", state)
      ∷ ("action", action)
      ∷ ("observation.ft_wrench", wrench)
      ∷ ("observation.ft_time_delta_s", ft_delta)
      ∷ ("observation.scale_weight_g", weight)
      ∷ ("observation.scale_time_delta_s", scale_delta)
      ∷ ("observation.scale_stable", stable)
      ∷ ("observation.scale_tared", tared)
      ∷ ("observation.scale_net", net)
      ∷ map camera_feature contract.cameras)

abbrev pub spec_of : CameraConfig → CameraSpec
spec_of stream = record { role = stream.role; height = height_of stream; width = width_of stream }

unfoldable pub canonical_dataset_contract : {F : Type 0} → CollectionConfig F → DatasetContract
unfolding recorded
canonical_dataset_contract config = record {
  state_names = names_of config;
  action_names = names_of config;
  cameras = map spec_of (recording_camera_streams config);
}

abbrev is_line_break : ℕ → Bool
is_line_break c = c == 10 || c == 13

abbrev no_codes : List ℕ → Bool
no_codes [] = true
no_codes (c ∷ cs) = false

-- The task is the code points of its text.
unfoldable pub normalize_task : {F : Type 0} → Value F → Result CollectionError (List ℕ)
unfolding strip
normalize_task (text s) =
    let task = strip (codes s) in
    if no_codes task || any is_line_break task then err bad_task else ok task
normalize_task _ = err bad_task
