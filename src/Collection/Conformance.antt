-- ===== src/Collection/Conformance.antt =====
-- The frames of validated samples against the features of the dataset contract.
use vlai_l1_runtime.Prelude.{
  ℕ, String, ◌≡◌, refl, ◌∙◌, Bool, true, false, some, List, [], ◌∷◌, ◌++◌, map, length, inl, inr,
  All, arith, eq_iff, Option-cases, if◌then◌else◌,
}
use vlai_l1_runtime.Prelude.Result.{ok, Result-cases}
use vlai_l1_runtime.Prelude.Value.{Floats, Value}
use vlai_l1_runtime.Contracts.{contains, unique, lookup}
use vlai_l1_runtime.Cameras.Config.{CameraConfig}
use vlai_l1_runtime.Cameras.Configured.{IsConfigured}
use vlai_l1_runtime.Collection.Images.{
  Images, HasCuts, Image, IsRgb, height_of, width_of, validate_camera_image, crop_camera_image,
  validate_camera_image-IsRgb, crop_camera_image-IsRgb,
}
use vlai_l1_runtime.Collection.Contract.{
  names_of, recorded, recording_camera_streams, Feature, float32, video, image_key, ft_axis_names,
  CameraSpec, spec_of, camera_feature, vector_feature, features, canonical_dataset_contract,
  normalize_task,
}
use vlai_l1_runtime.Collection.Sample.{
  CameraSample, CollectionSample, ValidatedSample, Entry, vector, shown, task, lerobot_frame,
  shown_images,
}
use vlai_l1_runtime.Collection.Assembler.{validate_sample}
use vlai_l1_runtime.Collection.Accepted.{validate_sample-ok}
use vlai_l1_runtime.Collection.Sizes.{length-map, prepare-IsSized}
use vlai_l1_runtime.Collection.Checks.{Seconds, Assembler, stream_by_role, take_images}

module _ {im : Images} {F : Type 0} where
  abbrev pub Fits : Feature → Entry im F → Type 0
  Fits (float32 names) (vector xs) = length xs ≡ length names
  Fits (video height width) (shown i) = IsRgb height width i
  Fits _ _ = ⊥

  -- The frame has the features, in order, and the task behind them.
  abbrev pub Conforms : List (String × Feature) → List (String × Entry im F) → Type 0
  Conforms [] ((key, task t) ∷ []) = key ≡ "task"
  Conforms ((name, feature) ∷ fs) ((key, entry) ∷ es) =
      (name ≡ key) × Fits feature entry × Conforms fs es
  Conforms _ _ = ⊥

-- The table finds every stream under its role.
abbrev Located : List (String × CameraConfig) → List CameraConfig → Type 0
Located table streams = All (λ (s : CameraConfig). lookup s.role table ≡ some s) streams

Located-cons :
    (role : String) (stream : CameraConfig) (table : List (String × CameraConfig))
    (streams : List CameraConfig)
    → contains role (map (λ (s : CameraConfig). s.role) streams) ≡ false
    → Located table streams
    → Located ((role, stream) ∷ table) streams
unfolding contains lookup
Located-cons role stream table [] absent h = tt
Located-cons role stream table (s ∷ streams) absent (first, rest) =
    (ground (arith, eq_iff role s.role), Located-cons role stream table streams (ground arith) rest)

Located-stream_by_role :
    (streams : List CameraConfig)
    → unique (map (λ (s : CameraConfig). s.role) streams) ≡ true
    → Located (stream_by_role streams) streams
unfolding unique lookup
Located-stream_by_role [] h = tt
Located-stream_by_role (s ∷ streams) h = (
  ground (arith, eq_iff s.role s.role),
  Located-cons s.role s (stream_by_role streams) streams (ground arith)
      (Located-stream_by_role streams (ground arith)),
)

if_All :
    (P : CameraConfig → Type 0) (b : Bool) (xs ys : List CameraConfig)
    → All P xs
    → All P ys
    → All P (if b then xs else ys)
if_All P true xs ys h k = h
if_All P false xs ys h k = k

recorded-All :
    (P : CameraConfig → Type 0) (streams : List CameraConfig) (roles : List String)
    → All P streams
    → All P (recorded streams roles)
unfolding recorded
recorded-All P [] roles h = tt
recorded-All P (s ∷ streams) roles (first, rest) =
    let others = recorded-All P streams roles rest in
    if_All P (contains s.role roles) (s ∷ recorded streams roles) (recorded streams roles)
      (first, others) others

module _ {im : Images} where
  -- Each image is of its stream's size behind the crop.
  abbrev Shown : List CameraConfig → List (String × Image im) → Type 0
  Shown [] [] = Unit
  Shown (s ∷ streams) ((key, i) ∷ images) =
      (image_key s.role ≡ key) × IsRgb (height_of s) (width_of s) i × Shown streams images
  Shown _ _ = ⊥

  take_images-Shown :
      HasCuts im
      → (streams : List CameraConfig) (cameras : List (String × CameraSample im))
        (table : List (String × CameraConfig)) (images : List (String × Image im))
      → Located table streams
      → All IsConfigured streams
      → take_images (map (λ (s : CameraConfig). s.role) streams) cameras table ≡ ok images
      → Shown streams images
  unfolding take_images
  take_images-Shown cuts [] cameras table [] located configured h = tt
  take_images-Shown cuts [] cameras table (i ∷ images) located configured h = cc
  take_images-Shown cuts (s ∷ streams) cameras table images (found, located) (made, configured) h =
      elim (Option-cases (lookup s.role cameras)) [
        | inl nothing ↦ absurd (ground (arith, found, nothing))
        | inr (sample, taken) ↦ elim (Result-cases (validate_camera_image sample.image s)) [
          | inr (x, failed) ↦ absurd (ground (arith, found, taken, failed))
          | inl (u, valid) ↦ elim (Result-cases (crop_camera_image sample.image s)) [
            | inr (x, failed) ↦ absurd (ground (arith, found, taken, valid, failed))
            | inl (cropped, cut) ↦
                elim (Result-cases
                  (take_images (map (λ (c : CameraConfig). c.role) streams) cameras table)) [
                    | inr (x, failed) ↦ absurd (ground (arith, found, taken, valid, cut, failed))
                    | inl (rest, others) ↦
                        let split : images ≡ (image_key s.role, cropped) ∷ rest =
                          ground (arith, found, taken, valid, cut, others) in
                        rw split (
                          refl,
                          crop_camera_image-IsRgb cuts sample.image cropped s made.crop
                              (validate_camera_image-IsRgb sample.image s valid) cut,
                          take_images-Shown cuts streams cameras table rest located configured
                              others,
                        )
                  ]
          ]
        ]
      ]

vector_feature-ok :
    (names : List String) (f : Feature) → vector_feature names ≡ ok f → f ≡ float32 names
unfolding vector_feature
vector_feature-ok names f h = ground arith

features-ok :
    (names : List String) (cameras : List CameraSpec) (fs : List (String × Feature))
    → features (record { state_names = names; action_names = names; cameras = cameras }) ≡ ok fs
    → fs
      ≡ ("observation.state", float32 names)
        ∷ ("action", float32 names)
        ∷ ("observation.ft_wrench", float32 ft_axis_names)
        ∷ ("observation.ft_time_delta_s", float32 ("ft_minus_robot_s" ∷ []))
        ∷ ("observation.scale_weight_g", float32 ("weight_g" ∷ []))
        ∷ ("observation.scale_time_delta_s", float32 ("scale_minus_robot_s" ∷ []))
        ∷ ("observation.scale_stable", float32 ("status_is_ST" ∷ []))
        ∷ ("observation.scale_tared", float32 ("mode_is_TR" ∷ []))
        ∷ ("observation.scale_net", float32 ("mode_is_NT" ∷ []))
        ∷ map camera_feature cameras
unfolding features vector_feature unique contains
features-ok names cameras fs h = elim (Result-cases (vector_feature names)) [
  | inr (x, failed) ↦ absurd (ground (arith, failed))
  | inl (f, made) ↦ ground (arith, made, vector_feature-ok names f made)
]

module _ {im : Images} where
  Shown-Conforms :
      (F : Type 0) (streams : List CameraConfig) (images : List (String × Image im)) (t : List ℕ)
      → Shown streams images
      → Conforms {im = im} {F = F}
          (map camera_feature (map spec_of streams))
          (shown_images images ++ ("task", task t) ∷ [])
  Shown-Conforms F [] [] t h = refl
  Shown-Conforms F [] (i ∷ images) t h = absurd h
  Shown-Conforms F (s ∷ streams) [] t h = absurd h
  Shown-Conforms F (s ∷ streams) ((key, i) ∷ images) t (named, sized, rest) =
      (named, sized, Shown-Conforms F streams images t rest)

module _ {im : Images} {F : Type 0} where
  -- The frame conforms where its vectors have their lengths and its images their sizes.
  frame-Conforms :
      (single : F → F) (of_bool : Bool → F) (names : List String) (streams : List CameraConfig)
      (v : ValidatedSample im F) (label : Value F) (entries : List (String × Entry im F))
      (fs : List (String × Feature))
      → length v.state ≡ length names
      → length v.action ≡ length names
      → length v.ft_wrench ≡ 6
      → Shown streams v.images
      → lerobot_frame single of_bool v label ≡ ok entries
      → features
          (record { state_names = names; action_names = names; cameras = map spec_of streams })
        ≡ ok fs
      → Conforms fs entries
  unfolding lerobot_frame
  frame-Conforms single of_bool names streams v label entries fs state action wrench images framed
        featured =
      elim (Result-cases (normalize_task label)) [
        | inr (x, failed) ↦ absurd (ground (arith, failed))
        | inl (t, normal) ↦
            let whole = features-ok names (map spec_of streams) fs featured in
            let built : entries
                ≡ ("observation.state", vector (map single v.state))
                  ∷ ("action", vector (map single v.action))
                  ∷ ("observation.ft_wrench", vector (map single v.ft_wrench))
                  ∷ ("observation.ft_time_delta_s", vector (single v.ft_time_delta_s ∷ []))
                  ∷ ("observation.scale_weight_g", vector (single v.scale_weight_g ∷ []))
                  ∷ ("observation.scale_time_delta_s", vector (single v.scale_time_delta_s ∷ []))
                  ∷ ("observation.scale_stable", vector (single (of_bool v.scale_stable) ∷ []))
                  ∷ ("observation.scale_tared", vector (single (of_bool v.scale_tared) ∷ []))
                  ∷ ("observation.scale_net", vector (single (of_bool v.scale_net) ∷ []))
                  ∷ (shown_images v.images ++ ("task", task t) ∷ []) =
              ground (arith, normal) in
            rw (whole, built)
              (
                refl,
                length-map single v.state ∙ state,
                (
                  refl,
                  length-map single v.action ∙ action,
                  (
                    refl,
                    length-map single v.ft_wrench ∙ wrench,
                    (
                      refl,
                      refl,
                      (
                        refl,
                        refl,
                        (
                          refl,
                          refl,
                          (
                            refl,
                            refl,
                            (refl, refl, (refl, refl, Shown-Conforms F streams v.images t images)),
                          ),
                        ),
                      ),
                    ),
                  ),
                ),
              )
      ]

module _ (fl : Floats) (tm : Seconds fl.F) where
  open fl use {F}

  -- Every frame of an accepted sample is one of the dataset contract of its configuration: it has
  -- exactly the contract's features and the task behind them, in order, each vector as long as the
  -- names it is declared with, each image RGB and of the declared height and width, if the
  -- configured streams have passed their checks and are recorded in their order and once each.
  pub lerobot_frame-Conforms :
      {im : Images} (cuts : HasCuts im) (single : F → F) (of_bool : Bool → F) (s : Assembler F)
      → All IsConfigured s.config.streams
      → map (λ (c : CameraConfig). c.role) (recording_camera_streams s.config)
        ≡ s.config.record_camera_roles
      → unique s.config.record_camera_roles ≡ true
      → (sample : CollectionSample im F) (now_ns : Value F) (v : ValidatedSample im F)
        (label : Value F) (entries : List (String × Entry im F)) (fs : List (String × Feature))
      → (validate_sample fl tm sample now_ns s).0 ≡ ok v
      → lerobot_frame single of_bool v label ≡ ok entries
      → features (canonical_dataset_contract s.config) ≡ ok fs
      → Conforms fs entries
  unfolding canonical_dataset_contract
  lerobot_frame-Conforms cuts single of_bool s configured ordered once sample now_ns v label entries
        fs h framed featured =
      let (p, prepared, found, current, coherent, close, after) =
        validate_sample-ok fl tm sample now_ns s v h in
      let streams = recording_camera_streams s.config in
      let sized = prepare-IsSized fl tm s sample now_ns p prepared in
      let located = Located-stream_by_role streams (rw ordered once) in
      let images : take_images (map (λ (c : CameraConfig). c.role) streams) sample.cameras
            (stream_by_role streams)
          ≡ ok v.images =
        rw (ordered, found) sized.images in
      frame-Conforms single of_bool (names_of s.config) streams v label entries fs
        (rw found sized.state) (rw found sized.action) (rw found sized.wrench)
        (take_images-Shown cuts streams sample.cameras (stream_by_role streams) v.images located
          (recorded-All IsConfigured s.config.streams s.config.record_camera_roles configured)
          images)
        framed featured
