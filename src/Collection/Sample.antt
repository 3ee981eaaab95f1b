-- ===== src/Collection/Sample.antt =====
-- `CollectionSample` and `ValidatedSample` of schema.py, and the frame of a sample.
use vlai_l1_runtime.Prelude.{
  ℕ, String, Bool, true, false, not, Option, none, some, List, [], ◌∷◌, ◌++◌, map,
}
use vlai_l1_runtime.Prelude.Result.{Result, ok, err, ◌>>=◌, ◌>>◌, guard}
use vlai_l1_runtime.Prelude.Value.{Floats, Value, text, Received, instance_of, incomplete, foreign}
use vlai_l1_runtime.Contracts.{
  Raised, contract, overflow_error, NamedJointVector, VectorFields, make_named_joint_vector,
}
use vlai_l1_runtime.Cameras.Frames.{FrameFields, CameraFrameMetadata, make_frame_metadata}
use vlai_l1_runtime.Collection.Images.{Images, Image, no_image}
use vlai_l1_runtime.Collection.Contract.{
  CollectionError, joints_malformed, cameras_type, camera_type, image_missing, metadata_malformed,
  ft_type, scale_type, overflow, attribute_error, normalize_task,
}

-- `values` is absent where it is no tuple.
pub record FtSample (F : Type 0) : Type 0 where
  pub values : Option (List (Value F))
  pub monotonic_ns : Value F
  pub sequence : Value F

pub record ScaleSample (F : Type 0) : Type 0 where
  pub weight_g : Value F
  pub stable : Value F
  pub tared : Value F
  pub net : Value F
  pub monotonic_ns : Value F
  pub sequence : Value F

pub record CameraFields (im : Images) (F : Type 0) : Type 0 where
  pub metadata : Received (FrameFields F)
  pub image : Image im

pub record CameraSample (im : Images) : Type 0 where
  pub metadata : CameraFrameMetadata
  pub image : Image im

pub data CameraMapping (im : Images) (F : Type 0) : Type 0 where
  cameras : List (Value F × Received (CameraFields im F)) → CameraMapping im F
  not_cameras : CameraMapping im F

pub record SampleFields (im : Images) (F : Type 0) : Type 0 where
  pub observation : Received (VectorFields F)
  pub action : Received (VectorFields F)
  pub cameras : CameraMapping im F
  pub ft : Option (Received (FtSample F))
  pub scale : Option (Received (ScaleSample F))

pub record CollectionSample (im : Images) (F : Type 0) : Type 0 where
  pub observation : NamedJointVector F
  pub action : NamedJointVector F
  pub cameras : List (String × CameraSample im)
  pub ft : Option (FtSample F)
  pub scale : Option (ScaleSample F)

abbrev is_no_image : {im : Images} → Image im → Bool
is_no_image no_image = true
is_no_image _ = false

-- `except (AttributeError, TypeError, ValueError)`, which lets an OverflowError pass
abbrev joints :
    {F : Type 0} → Result Raised (NamedJointVector F) → Result CollectionError (NamedJointVector F)
joints (ok v) = ok v
joints (err (contract e)) = err joints_malformed
joints (err overflow_error) = err overflow

abbrev metadata_of :
    {F : Type 0} → Received (FrameFields F) → Result CollectionError CameraFrameMetadata
metadata_of (instance_of f) = elim (make_frame_metadata f) [
  | err e ↦ err metadata_malformed
  | ok metadata ↦ ok metadata
]
metadata_of _ = err metadata_malformed

module _ {im : Images} {F : Type 0} where
  abbrev camera_of : Received (CameraFields im F) → Result CollectionError (CameraSample im)
  camera_of foreign = err camera_type
  camera_of incomplete = err attribute_error
  camera_of (instance_of c) = do
    guard (not (is_no_image c.image)) image_missing
    metadata ← metadata_of c.metadata
    ok (record { metadata = metadata; image = c.image })

  unfoldable pub text_roles :
      List (Value F × Received (CameraFields im F))
      → Option (List (String × Received (CameraFields im F)))
  text_roles [] = some []
  text_roles ((text role, c) ∷ items) = elim (text_roles items) [
    | none ↦ none
    | some rest ↦ some ((role, c) ∷ rest)
  ]
  text_roles (_ ∷ items) = none

  -- The loop over the cameras.
  unfoldable pub snapshot_cameras :
      List (String × Received (CameraFields im F))
      → Result CollectionError (List (String × CameraSample im))
  unfolding make_frame_metadata
  snapshot_cameras [] = ok []
  snapshot_cameras ((role, c) ∷ items) = do
    sample ← camera_of c
    rest ← snapshot_cameras items
    ok ((role, sample) ∷ rest)

  abbrev camera_items :
      CameraMapping im F → Result CollectionError (List (String × Received (CameraFields im F)))
  camera_items not_cameras = err cameras_type
  camera_items (cameras items) = elim (text_roles items) [
    | none ↦ err cameras_type
    | some found ↦ ok found
  ]

abbrev typed :
    {A : Type 0} → Option (Received A) → CollectionError → Result CollectionError (Option A)
typed none e = ok none
typed (some (instance_of a)) e = ok (some a)
typed (some _) e = err e

module _ (fl : Floats) where
  open fl use {F}

  abbrev joint_vector : Received (VectorFields F) → Result CollectionError (NamedJointVector F)
  joint_vector (instance_of v) = joints (make_named_joint_vector fl v)
  joint_vector _ = err joints_malformed

  -- `CollectionSample.__post_init__`
  unfoldable pub make_collection_sample :
      {im : Images} → SampleFields im F → Result CollectionError (CollectionSample im F)
  unfolding make_named_joint_vector text_roles snapshot_cameras
  make_collection_sample s = do
    observation ← joint_vector s.observation
    action ← joint_vector s.action
    items ← camera_items s.cameras
    snapshot ← snapshot_cameras items
    ft ← typed s.ft ft_type
    scale ← typed s.scale scale_type
    ok (record {
      observation = observation;
      action = action;
      cameras = snapshot;
      ft = ft;
      scale = scale;
    })

pub record ValidatedSample (im : Images) (F : Type 0) : Type 0 where
  pub state : List F
  pub action : List F
  pub images : List (String × Image im)
  pub ft_wrench : List F
  pub ft_time_delta_s : F
  pub scale_weight_g : F
  pub scale_time_delta_s : F
  pub scale_stable : Bool
  pub scale_tared : Bool
  pub scale_net : Bool

-- An entry of a dataset frame.
pub data Entry (im : Images) (F : Type 0) : Type 0 where
  vector : List F → Entry im F
  shown : Image im → Entry im F
  task : List ℕ → Entry im F

module _ {im : Images} {F : Type 0} where
  abbrev pub shown_images : List (String × Image im) → List (String × Entry im F)
  shown_images [] = []
  shown_images ((key, i) ∷ rest) = (key, shown i) ∷ shown_images rest

-- `single` rounds to a float32, as `np.asarray(..., dtype=np.float32)` does; `of_bool` is `float(b)`.
module _ {im : Images} {F : Type 0} (single : F → F) (of_bool : Bool → F) where
  abbrev one_value : F → Entry im F
  one_value x = vector (single x ∷ [])

  -- `lerobot_frame`, its items in order
  unfoldable pub lerobot_frame :
      ValidatedSample im F → Value F → Result CollectionError (List (String × Entry im F))
  unfolding normalize_task
  lerobot_frame v label = do
    normalized ← normalize_task label
    ok (
        ("observation.state", vector (map single v.state))
        ∷ ("action", vector (map single v.action))
        ∷ ("observation.ft_wrench", vector (map single v.ft_wrench))
        ∷ ("observation.ft_time_delta_s", one_value v.ft_time_delta_s)
        ∷ ("observation.scale_weight_g", one_value v.scale_weight_g)
        ∷ ("observation.scale_time_delta_s", one_value v.scale_time_delta_s)
        ∷ ("observation.scale_stable", one_value (of_bool v.scale_stable))
        ∷ ("observation.scale_tared", one_value (of_bool v.scale_tared))
        ∷ ("observation.scale_net", one_value (of_bool v.scale_net))
        ∷ (shown_images v.images ++ ("task", task normalized) ∷ []))
