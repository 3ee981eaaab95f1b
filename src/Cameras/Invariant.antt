-- ===== src/Cameras/Invariant.antt =====
-- The invariant of a validator, and that every call keeps it.
use vlai_l1_runtime.Prelude.{
  String, ◌≡◌, ◌≢◌, refl, ap, true, subst, some, List, [], ◌∷◌, inl, inr, arith, eq_iff, All,
  Option-cases, Bool-cases,
}
use mathlib.Core.Option.{some-injective}
use vlai_l1_runtime.Prelude.Result.{ok, err, Result-cases}
use vlai_l1_runtime.Prelude.Value.{Value, natural}
use vlai_l1_runtime.Contracts.{
  require_normalized, contains, subset, lookup, keys, Mapping, mapping, not_mapping, text_items,
}
use vlai_l1_runtime.Cameras.Frames.{CameraError, key_error, CameraFrameMetadata}
use vlai_l1_runtime.Cameras.Validator.{
  Continuity, Validator, FrameMapping, frames, not_frames, frame_items, check_set, validate,
  check_epochs, reset,
}
use vlai_l1_runtime.Cameras.Accepted.{as_previous, validate-IsCoherent}
use vlai_l1_runtime.Cameras.Known.{
  Differ, IsKnown, contains-lookup, contains-subset, subset-All, check_frames_ne_key_error,
  check_epochs_ne_key_error,
}

-- What the calls keep: the last set has every enabled role, and the epochs that a reset declares
-- differ from those of that set.
pub record IsWellFormed (v : Validator) : Type 0 where
  pub complete :
      (previous : List (String × Continuity))
      → v.previous ≡ some previous
      → subset (keys v.enabled) (keys previous) ≡ true
  pub differing :
      (previous : List (String × Continuity)) (epochs : List (String × String))
      → v.previous ≡ some previous
      → v.pending ≡ some epochs
      → Differ previous epochs

pub IsWellFormed-IsKnown :
    (v : Validator)
    → IsWellFormed v
    → (role : String) → contains role (keys v.enabled) ≡ true
    → IsKnown role v
IsWellFormed-IsKnown v h role present =
    let (stream, enabled) = contains-lookup role v.enabled present in
    record {
      stream = stream;
      enabled = enabled;
      former = λ previous e.
          contains-lookup role previous
            (contains-subset role (keys v.enabled) (keys previous) present (h.complete previous e));
    }

keys-as_previous :
    (current : List (String × CameraFrameMetadata)) → keys (as_previous current) ≡ keys current
keys-as_previous [] = refl
keys-as_previous ((role, frame) ∷ current) = ap (λ l. role ∷ l) (keys-as_previous current)

module _ {F : Type 0} where
  check_epochs-Differ :
      (previous : List (String × Continuity)) (items : List (String × Value F))
      (epochs : List (String × String))
      → check_epochs previous items ≡ ok epochs
      → Differ previous epochs
  unfolding check_epochs
  check_epochs-Differ previous [] [] h = tt
  check_epochs-Differ previous [] (x ∷ epochs) h = cc
  check_epochs-Differ previous ((role, value) ∷ items) epochs h =
      elim (Option-cases (require_normalized value)) [
        | inl nothing ↦ absurd (ground (arith, nothing))
        | inr (epoch, read) ↦ elim (Option-cases (lookup role previous)) [
          | inl nothing ↦ absurd (ground (arith, read, nothing))
          | inr (prior, found) ↦ elim (Result-cases (check_epochs previous items)) [
            | inr (x, failed) ↦ absurd (ground (arith, read, found, failed))
            | inl (rest, passed) ↦
                let split : epochs ≡ (role, epoch) ∷ rest = ground (arith, read, found, passed) in
                rw split (
                  λ other located same.
                      ground (arith, read, found, located, same, eq_iff epoch prior.stream_epoch),
                  check_epochs-Differ previous items rest passed,
                )
          ]
        ]
      ]

  check_set_ne_key_error :
      (v : Validator) (candidates : FrameMapping F) (now_ns : Value F)
      → IsWellFormed v
      → check_set v candidates now_ns ≢ err key_error
  unfolding check_set
  check_set_ne_key_error v not_frames now_ns w h = ground arith
  check_set_ne_key_error v (frames entries) now_ns w h = elim (Option-cases (natural now_ns)) [
    | inl nothing ↦ ground (arith, nothing)
    | inr (now, timed) ↦ elim (Option-cases (frame_items entries)) [
      | inl nothing ↦ ground (arith, timed, nothing)
      | inr (items, found) ↦ elim (Bool-cases (subset (keys items) (keys v.enabled))) [
        | inr differs ↦ ground (arith, timed, found, differs)
        | inl named ↦
            let known : All (λ role. IsKnown role v) (keys items) =
              subset-All (λ role. IsKnown role v) (keys items) (keys v.enabled)
                (IsWellFormed-IsKnown v w) named in
            ground (arith, timed, found, named, check_frames_ne_key_error v now items known)
      ]
    ]
  ]

  pub validate_ne_key_error :
      (candidates : FrameMapping F) (now_ns : Value F) (v : Validator)
      → IsWellFormed v
      → (validate candidates now_ns v).0 ≢ err key_error
  unfolding validate
  validate_ne_key_error candidates now_ns v w h =
      ground (arith, check_set_ne_key_error v candidates now_ns w)

  -- A call that raises leaves the validator as it was.
  pub validate-err :
      (candidates : FrameMapping F) (now_ns : Value F) (v : Validator) (e : CameraError)
      → (validate candidates now_ns v).0 ≡ err e
      → (validate candidates now_ns v).1 ≡ v
  unfolding validate
  validate-err candidates now_ns v e h = ground arith

  pub validate-IsWellFormed :
      (candidates : FrameMapping F) (now_ns : Value F) (v : Validator)
      → IsWellFormed v
      → IsWellFormed (validate candidates now_ns v).1
  validate-IsWellFormed candidates now_ns v w =
      elim (Result-cases (validate candidates now_ns v).0) [
        | inl (current, e) ↦
            let (coherent, after) = validate-IsCoherent v candidates now_ns current e in
            rw after (record {
              complete = λ previous e.
                  subst (λ m. subset (keys v.enabled) (keys m) ≡ true)
                    (some-injective (as_previous current) previous e)
                    (rw (keys-as_previous current) coherent.complete);
              differing = λ previous epochs e e'. absurd (ground arith);
            })
        | inr (x, e) ↦ rw (validate-err candidates now_ns v x e) w
      ]

  pub reset-err :
      (restarted_epochs : Mapping F) (v : Validator) (e : CameraError)
      → (reset restarted_epochs v).0 ≡ err e
      → (reset restarted_epochs v).1 ≡ v
  unfolding reset
  reset-err restarted_epochs v e h = ground arith

  -- What a call of `reset` that returns has read.
  pub reset-ok :
      (restarted_epochs : Mapping F) (v : Validator)
      → (reset restarted_epochs v).0 ≡ ok tt
      → (previous : List (String × Continuity)) × (epochs : List (String × String)) × (v.previous
          ≡ some previous)
        × Differ previous epochs
        × ((reset restarted_epochs v).1 ≡ record v { pending = some epochs })
  unfolding reset
  reset-ok not_mapping v h = absurd (ground arith)
  reset-ok (mapping []) v h = absurd (ground arith)
  reset-ok (mapping (entry ∷ entries)) v h = elim (Option-cases v.previous) [
    | inl nothing ↦ absurd (ground (arith, nothing))
    | inr (previous, former) ↦ elim (Option-cases (text_items (entry ∷ entries))) [
      | inl nothing ↦ absurd (ground (arith, former, nothing))
      | inr (items, found) ↦ elim (Result-cases (check_epochs previous items)) [
        | inr (x, failed) ↦ absurd (ground (arith, former, found, failed))
        | inl (epochs, passed) ↦ (
          previous,
          epochs,
          former,
          check_epochs-Differ previous items epochs passed,
          ground (arith, former, found, passed),
        )
      ]
    ]
  ]

  pub reset_ne_key_error :
      (restarted_epochs : Mapping F) (v : Validator)
      → IsWellFormed v
      → (reset restarted_epochs v).0 ≢ err key_error
  unfolding reset
  reset_ne_key_error not_mapping v w h = ground arith
  reset_ne_key_error (mapping []) v w h = ground arith
  reset_ne_key_error (mapping (entry ∷ entries)) v w h = elim (Option-cases v.previous) [
    | inl nothing ↦ ground (arith, nothing)
    | inr (previous, former) ↦ elim (Option-cases (text_items (entry ∷ entries))) [
      | inl nothing ↦ ground (arith, former, nothing)
      | inr (items, found) ↦ elim (Bool-cases (subset (keys items) (keys v.enabled))) [
        | inr differs ↦ ground (arith, former, found, differs)
        | inl named ↦
            let known : All (λ role. (prior : Continuity) × (lookup role previous ≡ some prior))
                (keys items) =
              subset-All (λ role. (prior : Continuity) × (lookup role previous ≡ some prior))
                (keys items) (keys v.enabled)
                (λ role present. (IsWellFormed-IsKnown v w role present).former previous former)
                named in
            ground (arith, former, found, named, check_epochs_ne_key_error previous items known)
      ]
    ]
  ]

  pub reset-IsWellFormed :
      (restarted_epochs : Mapping F) (v : Validator)
      → IsWellFormed v
      → IsWellFormed (reset restarted_epochs v).1
  reset-IsWellFormed restarted_epochs v w = elim (Result-cases (reset restarted_epochs v).0) [
    | inl (u, e) ↦
        let (previous, epochs, former, differ, after) = reset-ok restarted_epochs v e in
        rw after (record {
          complete = w.complete;
          differing = λ m es e e'.
              let other : m ≡ previous = cc in
              let declared_ones : es ≡ epochs = cc in rw (other, declared_ones) differ;
        })
    | inr (x, e) ↦ rw (reset-err restarted_epochs v x e) w
  ]
