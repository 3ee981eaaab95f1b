-- ===== src/Collection/Images.antt =====
-- `validate_camera_image` and `_crop_camera_image` of schema.py. The arrays of numpy and the pictures
-- of PIL are parameters.
use vlai_l1_runtime.Prelude.{
  ℕ, ◌+◌, ◌-◌, ◌≤◌, ◌≡◌, refl, ap₂, subst, ◌∙◌, true, String, Bool, false, ◌&&◌, Option, none, some,
  List, [], ◌∷◌, str_eq, eq_iff, ◌==◌, arith,
}
use vlai_l1_runtime.Prelude.Result.{Result, ok, err, ◌>>◌, guard}
use vlai_l1_runtime.Cameras.Config.{Region, CameraConfig}
use vlai_l1_runtime.Cameras.Configured.{IsInside, Cropped}

pub record Images : Type 1 where
  pub Array : Type 0
  pub Picture : Type 0
  -- `tuple(image.shape)` and `str(image.dtype)`
  pub shape : Array → List ℕ
  pub dtype : Array → String
  -- `image[y : bottom, x : right].copy()`
  pub slice : Array → (y bottom x right : ℕ) → Array
  pub size : Picture → ℕ × ℕ
  pub mode : Picture → String
  -- `image.crop((x, y, right, bottom))`
  pub crop : Picture → (x y right bottom : ℕ) → Picture

-- What numpy and PIL document of a region inside the image.
pub record HasCuts (im : Images) : Type 0 where
  pub slice_shape :
      (a : im.Array) (height width depth y bottom x right : ℕ)
      → im.shape a ≡ height ∷ width ∷ depth ∷ []
      → bottom ≤ height
      → right ≤ width
      → im.shape (im.slice a y bottom x right) ≡ (bottom - y) ∷ (right - x) ∷ depth ∷ []
  pub slice_dtype :
      (a : im.Array) (y bottom x right : ℕ) → im.dtype (im.slice a y bottom x right) ≡ im.dtype a
  pub crop_size :
      (p : im.Picture) (x y right bottom : ℕ)
      → im.size (im.crop p x y right bottom) ≡ (right - x, bottom - y)
  pub crop_mode :
      (p : im.Picture) (x y right bottom : ℕ) → im.mode (im.crop p x y right bottom) ≡ im.mode p

-- The image of a camera sample, an object of any class.
pub data Image (im : Images) : Type 0 where
  array : im.Array → Image im
  picture : im.Picture → Image im
  no_image : Image im
  no_image_class : Image im

abbrev pub numbers_eq : List ℕ → List ℕ → Bool
numbers_eq [] [] = true
numbers_eq (a ∷ as') (b ∷ bs) = a == b && numbers_eq as' bs
numbers_eq _ _ = false

pub data ImageError : Type 0 where
  bad_shape bad_dtype not_rgb no_crop : ImageError

module _ {im : Images} where
  unfoldable pub validate_camera_image : Image im → CameraConfig → Result ImageError (Unit {0})
  validate_camera_image (array a) config = do
    guard (numbers_eq (im.shape a) (config.height ∷ config.width ∷ 3 ∷ [])) bad_shape
    guard (str_eq (im.dtype a) "uint8") bad_dtype
  validate_camera_image (picture p) config =
      let size = im.size p in
      guard (size.0 == config.width && (size.1 == config.height && str_eq (im.mode p) "RGB"))
        not_rgb
  validate_camera_image _ config = err not_rgb

  abbrev cut : Image im → Region → Result ImageError (Image im)
  cut (array a) roi =
      ok (array (im.slice a roi.top (roi.top + roi.high) roi.left (roi.left + roi.wide)))
  cut (picture p) roi =
      ok (picture (im.crop p roi.left roi.top (roi.left + roi.wide) (roi.top + roi.high)))
  cut _ roi = err no_crop

  abbrev cut_if : Image im → Option Region → Result ImageError (Image im)
  cut_if image none = ok image
  cut_if image (some roi) = cut image roi

  -- `_crop_camera_image`
  unfoldable pub crop_camera_image : Image im → CameraConfig → Result ImageError (Image im)
  crop_camera_image image config = cut_if image config.crop

  -- An RGB image of these numbers of rows and columns.
  abbrev pub IsRgb : (height width : ℕ) → Image im → Type 0
  IsRgb height width (array a) = (im.shape a ≡ height ∷ width ∷ 3 ∷ []) × (im.dtype a ≡ "uint8")
  IsRgb height width (picture p) = (im.size p ≡ (width, height)) × (im.mode p ≡ "RGB")
  IsRgb height width no_image = ⊥
  IsRgb height width no_image_class = ⊥

-- `stream.height if stream.crop is None else stream.crop.height`
abbrev high_or : ℕ → Option Region → ℕ
high_or height none = height
high_or height (some roi) = roi.high

abbrev wide_or : ℕ → Option Region → ℕ
wide_or width none = width
wide_or width (some roi) = roi.wide

abbrev pub height_of : CameraConfig → ℕ
height_of c = high_or c.height c.crop

abbrev pub width_of : CameraConfig → ℕ
width_of c = wide_or c.width c.crop

pub numbers_eq-eq : (xs ys : List ℕ) → numbers_eq xs ys ≡ true → xs ≡ ys
numbers_eq-eq [] [] h = refl
numbers_eq-eq [] (y ∷ ys) h = absurd (ground arith)
numbers_eq-eq (x ∷ xs) [] h = absurd (ground arith)
numbers_eq-eq (x ∷ xs) (y ∷ ys) h = ground (arith, numbers_eq-eq xs ys)

module _ {im : Images} where
  pub validate_camera_image-IsRgb :
      (image : Image im) (config : CameraConfig)
      → validate_camera_image image config ≡ ok tt
      → IsRgb config.height config.width image
  unfolding validate_camera_image
  validate_camera_image-IsRgb (array a) config h = (
    numbers_eq-eq (im.shape a) (config.height ∷ config.width ∷ 3 ∷ []) (ground arith),
    ground (arith, eq_iff (im.dtype a) "uint8"),
  )
  validate_camera_image-IsRgb (picture p) config h =
      (ground arith, ground (arith, eq_iff (im.mode p) "RGB"))
  validate_camera_image-IsRgb no_image config h = absurd (ground arith)
  validate_camera_image-IsRgb no_image_class config h = absurd (ground arith)

  cut-IsRgb :
      HasCuts im
      → (image cropped : Image im) (role : String) (height width : ℕ) (roi : Region)
      → IsInside role width height roi
      → IsRgb height width image
      → cut image roi ≡ ok cropped
      → IsRgb roi.high roi.wide cropped
  cut-IsRgb cuts (array a) cropped role height width roi inside (shaped, typed) h =
      let bottom = roi.top + roi.high in
      let right = roi.left + roi.wide in
      let made : cropped ≡ array (im.slice a roi.top bottom roi.left right) = cc h in
      let rows : bottom - roi.top ≡ roi.high = omega arith in
      let columns : right - roi.left ≡ roi.wide = omega arith in
      let shaped' =
        cuts.slice_shape a height width 3 roi.top bottom roi.left right shaped inside.bottom
          inside.right in
      let typed' = cuts.slice_dtype a roi.top bottom roi.left right in
      rw made (
        subst (λ n. im.shape (im.slice a roi.top bottom roi.left right) ≡ n ∷ roi.wide ∷ 3 ∷ [])
            rows
            (subst
              (λ n.
                im.shape (im.slice a roi.top bottom roi.left right)
                ≡ (bottom - roi.top) ∷ n ∷ 3 ∷ [])
              columns shaped'),
        typed' ∙ typed,
      )
  cut-IsRgb cuts (picture p) cropped role height width roi inside (sized, moded) h =
      let bottom = roi.top + roi.high in
      let right = roi.left + roi.wide in
      let made : cropped ≡ picture (im.crop p roi.left roi.top right bottom) = cc h in
      let rows : bottom - roi.top ≡ roi.high = omega arith in
      let columns : right - roi.left ≡ roi.wide = omega arith in
      let sized' = cuts.crop_size p roi.left roi.top right bottom in
      rw made (
        sized' ∙ ap₂ (λ a b. (a, b)) columns rows,
        cuts.crop_mode p roi.left roi.top right bottom ∙ moded,
      )
  cut-IsRgb cuts no_image cropped role height width roi inside rgb h = absurd rgb
  cut-IsRgb cuts no_image_class cropped role height width roi inside rgb h = absurd rgb

  cut_if-IsRgb :
      HasCuts im
      → (image cropped : Image im) (role : String) (height width : ℕ) (o : Option Region)
      → Cropped role width height o
      → IsRgb height width image
      → cut_if image o ≡ ok cropped
      → IsRgb (high_or height o) (wide_or width o) cropped
  cut_if-IsRgb cuts image cropped role height width none inside rgb h =
      let same : image ≡ cropped = cc h in subst (λ i. IsRgb height width i) same rgb
  cut_if-IsRgb cuts image cropped role height width (some roi) inside rgb h =
      cut-IsRgb cuts image cropped role height width roi inside rgb h

  -- Cropping turns an image of the stream's size into one of its crop's size.
  pub crop_camera_image-IsRgb :
      HasCuts im
      → (image cropped : Image im) (config : CameraConfig)
      → Cropped config.role config.width config.height config.crop
      → IsRgb config.height config.width image
      → crop_camera_image image config ≡ ok cropped
      → IsRgb (height_of config) (width_of config) cropped
  unfolding crop_camera_image
  crop_camera_image-IsRgb cuts image cropped config inside rgb h =
      cut_if-IsRgb cuts image cropped config.role config.height config.width config.crop inside rgb
        h
