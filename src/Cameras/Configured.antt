-- ===== src/Cameras/Configured.antt =====
-- What a constructed camera configuration satisfies.
use vlai_l1_runtime.Prelude.{
  ℕ, ◌+◌, ◌≤◌, ◌<◌, String, ◌≡◌, refl, Bool, true, false, Option, none, some, List, [], ◌∷◌, map,
  any, ap₂, All, inl, inr, arith, eq_iff,
}
use vlai_l1_runtime.Prelude.Result.{ok, Result-cases}
use vlai_l1_runtime.Prelude.Value.{Floats, Received}
use vlai_l1_runtime.Contracts.{contains, unique, names_eq}
use vlai_l1_runtime.Cameras.Config.{
  ImageRoi, Region, CameraFields, CameraConfig, camera_roles, is_v4l2, is_some_of, validate_roi,
  crop_of, check_device, check_index, make_camera_config, CamerasFields, CamerasConfig,
  make_cameras, enabled_devices, make_cameras_config,
}

-- A region of at least one pixel inside the image; a square one for the agent camera.
pub record IsInside (role : String) (width height : ℕ) (r : Region) : Type 0 where
  pub wide : 0 < r.wide
  pub high : 0 < r.high
  pub right : r.left + r.wide ≤ width
  pub bottom : r.top + r.high ≤ height
  pub square : role ≡ "agent" → r.wide ≡ r.high

abbrev pub Cropped : String → (width height : ℕ) → Option Region → Type 0
Cropped role width height none = Unit
Cropped role width height (some r) = IsInside role width height r

abbrev pub Exposed : Bool → Option ℕ → Type 0
Exposed enabled none = Unit
Exposed enabled (some exposure) = (enabled ≡ true) × (0 < exposure)

pub record IsConfigured (c : CameraConfig) : Type 0 where
  pub role : contains c.role camera_roles ≡ true
  pub width : 0 < c.width
  pub height : 0 < c.height
  pub fps : 0 < c.fps
  pub device : is_some_of c.device_id ≡ c.enabled
  pub driver : c.enabled ≡ true → is_v4l2 c.driver ≡ true
  pub index : c.enabled ≡ true → is_some_of c.video_index ≡ true
  pub indexed : is_some_of c.video_index ≡ true → is_v4l2 c.driver ≡ true
  pub exposure : Exposed c.enabled c.manual_exposure
  pub crop : Cropped c.role c.width c.height c.crop

crop_of-Cropped :
    (role : String) (width height : ℕ) (o : Option (Received ImageRoi)) (crop : Option Region)
    → crop_of role width height o ≡ ok crop
    → Cropped role width height crop
unfolding crop_of validate_roi
crop_of-Cropped role width height o crop h = ground (arith, eq_iff role "agent")

module _ {F : Type 0} where
  make_camera_config-IsConfigured :
      (c : CameraFields F) (camera : CameraConfig)
      → make_camera_config c ≡ ok camera
      → IsConfigured camera
  unfolding make_camera_config check_device check_index contains
  make_camera_config-IsConfigured c camera h = record {
    role = ground arith;
    width = ground arith;
    height = ground arith;
    fps = ground arith;
    device = ground arith;
    driver = ground arith;
    index = ground arith;
    indexed = ground arith;
    exposure = ground arith;
    crop = crop_of-Cropped camera.role camera.width camera.height c.crop camera.crop (ground arith);
  }

  make_cameras-IsConfigured :
      (cs : List (CameraFields F)) (cameras : List CameraConfig)
      → make_cameras cs ≡ ok cameras
      → All IsConfigured cameras
  unfolding make_cameras
  make_cameras-IsConfigured [] [] h = tt
  make_cameras-IsConfigured [] (x ∷ cameras) h = cc
  make_cameras-IsConfigured (c ∷ cs) cameras h = elim (Result-cases (make_camera_config c)) [
    | inr (x, failed) ↦ absurd (ground (arith, failed))
    | inl (camera, made) ↦ elim (Result-cases (make_cameras cs)) [
      | inr (x, failed) ↦ absurd (ground (arith, made, failed))
      | inl (rest, others) ↦
          let split : cameras ≡ camera ∷ rest = ground (arith, made, others) in
          rw split (
            make_camera_config-IsConfigured c camera made,
            make_cameras-IsConfigured cs rest others,
          )
    ]
  ]

names_eq-eq : (xs ys : List String) → names_eq xs ys ≡ true → xs ≡ ys
unfolding names_eq
names_eq-eq [] [] h = refl
names_eq-eq [] (y ∷ ys) h = absurd (ground arith)
names_eq-eq (x ∷ xs) [] h = absurd (ground arith)
names_eq-eq (x ∷ xs) (y ∷ ys) h =
    ap₂ (λ k l. k ∷ l) (ground (arith, eq_iff x y)) (names_eq-eq xs ys (ground arith))

module _ (fl : Floats) where
  open fl use {F, is_finite, lt, zero_value}

  pub record IsPositive (x : F) : Type 0 where
    pub finite : is_finite x ≡ true
    pub positive : lt zero_value x ≡ true

  pub record AreConfigured (c : CamerasConfig F) : Type 0 where
    pub cameras : All IsConfigured c.streams
    pub roles : map (λ (s : CameraConfig). s.role) c.streams ≡ camera_roles
    pub required : any (λ (s : CameraConfig). s.required_for_collection) c.streams ≡ true
    pub devices : unique (enabled_devices c.streams) ≡ true
    pub age : IsPositive c.max_age_s
    pub skew : IsPositive c.max_pair_skew_s
    pub startup : IsPositive c.startup_timeout_s
    pub skew_within_age : lt c.max_age_s c.max_pair_skew_s ≡ false

  -- A `CamerasConfig` that is constructed has the three roles in their order, one of them required;
  -- finite positive limits, the skew not above the age; streams of positive size and rate, whose
  -- crop lies inside the image and is square for the agent; an enabled stream has an assigned
  -- driver, a device of its own and its index, a disabled one no device, and a manual exposure is
  -- positive and on an enabled stream only.
  pub make_cameras_config-AreConfigured :
      (c : CamerasFields F) (config : CamerasConfig F)
      → make_cameras_config fl c ≡ ok config
      → AreConfigured config
  unfolding make_cameras_config
  make_cameras_config-AreConfigured c config h = elim (Result-cases (make_cameras c.streams)) [
    | inr (x, failed) ↦ absurd (ground (arith, failed))
    | inl (streams, made) ↦
        let same : config.streams ≡ streams = ground (arith, made) in
        record {
          cameras = rw same (make_cameras-IsConfigured c.streams streams made);
          roles =
              names_eq-eq (map (λ (s : CameraConfig). s.role) config.streams) camera_roles
                (ground (arith, made));
          required = ground (arith, made);
          devices = ground (arith, made);
          age = ground (arith, made);
          skew = ground (arith, made);
          startup = ground (arith, made);
          skew_within_age = ground (arith, made);
        }
  ]
