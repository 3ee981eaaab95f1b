-- ===== src/Cameras/Known.antt =====
-- Look-ups of the validator that find what they look for, on its roles.
use vlai_l1_runtime.Prelude.{
  ℕ, String, ◌≡◌, ◌≢◌, refl, true, Option, none, some, List, [], ◌∷◌, inl, inr, arith, eq_iff, All,
  Option-cases, Bool-cases, str_eq,
}
use vlai_l1_runtime.Prelude.Result.{err, Result-cases}
use vlai_l1_runtime.Prelude.Value.{Value, Received}
use vlai_l1_runtime.Contracts.{contains, subset, lookup, keys}
use vlai_l1_runtime.Cameras.Frames.{
  key_error, FrameFields, CameraFrameMetadata, snapshot_frame_metadata,
}
use vlai_l1_runtime.Cameras.Validator.{
  Continuity, Stream, Validator, check_identity, check_continuity, check_frame, check_frames,
  declared, check_epochs,
}

pub contains-lookup {ℓ} :
    {A : Type ℓ} (role : String) (m : List (String × A))
    → contains role (keys m) ≡ true
    → (a : A) × (lookup role m ≡ some a)
unfolding contains lookup
contains-lookup role [] h = absurd (ground arith)
contains-lookup role ((k, a) ∷ m) h = elim (Bool-cases (str_eq k role)) [
  | inl same ↦ (a, ground (arith, same))
  | inr differs ↦
      let (b, found) = contains-lookup role m (ground (arith, eq_iff k role, eq_iff role k)) in
      (b, ground (arith, differs, found))
]

pub contains-subset :
    (role : String) (xs ys : List String)
    → contains role xs ≡ true
    → subset xs ys ≡ true
    → contains role ys ≡ true
unfolding contains subset
contains-subset role [] ys h k = absurd (ground arith)
contains-subset role (x ∷ xs) ys h k = elim (Bool-cases (str_eq role x)) [
  | inl same ↦ ground (arith, eq_iff role x)
  | inr differs ↦ contains-subset role xs ys (ground (arith, differs)) (ground arith)
]

-- No declared epoch is that of the last set.
abbrev pub Differ : List (String × Continuity) → List (String × String) → Type 0
Differ previous epochs =
    All
      (λ (entry : String × String).
        (prior : Continuity) → lookup entry.0 previous ≡ some prior → entry.1 ≢ prior.stream_epoch)
      epochs

-- The dictionaries of the validator have the role.
pub record IsKnown (role : String) (v : Validator) : Type 0 where
  pub stream : Stream
  pub enabled : lookup role v.enabled ≡ some stream
  pub former :
      (previous : List (String × Continuity))
      → v.previous ≡ some previous
      → (prior : Continuity) × (lookup role previous ≡ some prior)

check_identity_ne_key_error :
    (frame : CameraFrameMetadata) (stream : Stream)
    → check_identity frame (some stream) ≢ err key_error
unfolding check_identity
check_identity_ne_key_error frame stream h = ground arith

check_continuity_ne_key_error :
    (role : String) (frame : CameraFrameMetadata) (previous : Option (List (String × Continuity)))
    (pending : Option (List (String × String)))
    → ((m : List (String × Continuity))
        → previous ≡ some m
        → (prior : Continuity) × (lookup role m ≡ some prior))
    → check_continuity role frame previous pending ≢ err key_error
unfolding check_continuity
check_continuity_ne_key_error role frame none pending former h = ground arith
check_continuity_ne_key_error role frame (some m) pending former h =
    let (prior, found) = former m refl in
    elim (Option-cases (declared role pending)) [
      | inl nothing ↦ ground (arith, found, nothing)
      | inr (epoch, expected) ↦ ground (arith, found, expected)
    ]

check_frame_ne_key_error :
    (v : Validator) (now : ℕ) (role : String) (frame : CameraFrameMetadata)
    → IsKnown role v
    → check_frame v now role frame ≢ err key_error
unfolding check_frame
check_frame_ne_key_error v now role frame known h = ground (
  arith,
  known.enabled,
  check_identity_ne_key_error frame known.stream,
  check_continuity_ne_key_error role frame v.previous v.pending known.former,
)

module _ {F : Type 0} where
  snapshot_ne_key_error :
      (candidate : Received (FrameFields F)) → snapshot_frame_metadata candidate ≢ err key_error
  unfolding snapshot_frame_metadata
  snapshot_ne_key_error candidate h = ground arith

  pub check_frames_ne_key_error :
      (v : Validator) (now : ℕ) (items : List (String × Received (FrameFields F)))
      → All (λ role. IsKnown role v) (keys items)
      → check_frames v now items ≢ err key_error
  unfolding check_frames
  check_frames_ne_key_error v now [] known h = ground arith
  check_frames_ne_key_error v now ((role, candidate) ∷ items) (first, known) h =
      elim (Result-cases (snapshot_frame_metadata candidate)) [
        | inr (x, failed) ↦ ground (arith, failed, snapshot_ne_key_error candidate)
        | inl (frame, read) ↦ elim (Result-cases (check_frame v now role frame)) [
          | inr (x, failed) ↦
              ground (arith, read, failed, check_frame_ne_key_error v now role frame first)
          | inl (u, passed) ↦
              ground (arith, read, passed, check_frames_ne_key_error v now items known)
        ]
      ]

  pub check_epochs_ne_key_error :
      (previous : List (String × Continuity)) (items : List (String × Value F))
      → All (λ role. (prior : Continuity) × (lookup role previous ≡ some prior)) (keys items)
      → check_epochs previous items ≢ err key_error
  unfolding check_epochs
  check_epochs_ne_key_error previous [] known h = ground arith
  check_epochs_ne_key_error previous ((role, value) ∷ items) ((prior, found), known) h =
      ground (arith, found, check_epochs_ne_key_error previous items known)

-- The roles of a subset have what the keys of `m` have.
pub subset-All :
    (P : String → Type 0) (xs ys : List String)
    → ((role : String) → contains role ys ≡ true → P role)
    → subset xs ys ≡ true
    → All P xs
unfolding subset
subset-All P [] ys each h = tt
subset-All P (x ∷ xs) ys each h = (each x (ground arith), subset-All P xs ys each (ground arith))
