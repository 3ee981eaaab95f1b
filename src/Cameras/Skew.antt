-- ===== src/Cameras/Skew.antt =====
-- The times of a set of frames, all within the skew limit of one another.
use vlai_l1_runtime.Prelude.{ℕ, ◌-◌, ◌≤◌, String, List, [], ◌∷◌, arith, All}
use vlai_l1_runtime.Cameras.Frames.{CameraFrameMetadata}
use vlai_l1_runtime.Cameras.Validator.{frame_times, latest_of, earliest_of}

-- No two frames are further apart than `limit`.
abbrev pub WithinSkew : ℕ → List (String × CameraFrameMetadata) → Type 0
WithinSkew limit set =
    All
      (λ (a : String × CameraFrameMetadata).
        All (λ (b : String × CameraFrameMetadata). a.1.monotonic_ns - b.1.monotonic_ns ≤ limit) set)
      set

-- All times lie between `low` and `high`.
abbrev pub Between : ℕ → ℕ → List (String × CameraFrameMetadata) → Type 0
Between low high set =
    All (λ (a : String × CameraFrameMetadata). (low ≤ a.1.monotonic_ns) × (a.1.monotonic_ns ≤ high))
      set

Between-wider :
    (low high low' high' : ℕ) (set : List (String × CameraFrameMetadata))
    → low' ≤ low
    → high ≤ high'
    → Between low high set
    → Between low' high' set
Between-wider low high low' high' [] below above h = tt
Between-wider low high low' high' (a ∷ set) below above (first, rest) =
    (omega (arith, first), Between-wider low high low' high' set below above rest)

pub extremes-Between :
    (set : List (String × CameraFrameMetadata))
    → Between (earliest_of (frame_times set)) (latest_of (frame_times set)) set
extremes-Between [] = tt
extremes-Between (a ∷ []) = ground arith
extremes-Between (a ∷ b ∷ set) =
    let rest : List (String × CameraFrameMetadata) = b ∷ set in
    let low = earliest_of (frame_times rest) in
    let high = latest_of (frame_times rest) in
    (
      ground arith,
      Between-wider low high (earliest_of (frame_times (a ∷ rest)))
          (latest_of (frame_times (a ∷ rest))) rest (ground arith) (ground arith)
          (extremes-Between (b ∷ set)),
    )

pub WithinSkew_from :
    (limit low high : ℕ) (set others : List (String × CameraFrameMetadata))
    → high - low ≤ limit
    → Between low high set
    → Between low high others
    → All
        (λ (a : String × CameraFrameMetadata).
          All
            (λ (b : String × CameraFrameMetadata). a.1.monotonic_ns - b.1.monotonic_ns ≤ limit)
            others)
        set
WithinSkew_from limit low high [] others narrow h k = tt
WithinSkew_from limit low high (a ∷ set) others narrow (first, rest) k =
    (each others k, WithinSkew_from limit low high set others narrow rest k)
  where
    each :
        (bs : List (String × CameraFrameMetadata))
        → Between low high bs
        → All (λ (b : String × CameraFrameMetadata). a.1.monotonic_ns - b.1.monotonic_ns ≤ limit) bs
    each [] m = tt
    each (b ∷ bs) (m, ms) = (omega (arith, first, m, narrow), each bs ms)
