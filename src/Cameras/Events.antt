-- ===== src/Cameras/Events.antt =====
-- Clients of a validator: any sequence of calls of `validate` and `reset`.
use vlai_l1_runtime.Prelude.{ℕ, String, ◌≡◌, ◌≢◌, Option, none, some, List, [], ◌∷◌, arith, All}
use vlai_l1_runtime.Prelude.Result.{Result, ok, err}
use vlai_l1_runtime.Prelude.Value.{Floats, Value, Received}
use vlai_l1_runtime.Contracts.{Mapping}
use vlai_l1_runtime.Cameras.Config.{CamerasFields}
use vlai_l1_runtime.Cameras.Frames.{CameraError, key_error, CameraFrameMetadata}
use vlai_l1_runtime.Cameras.Validator.{Validator, FrameMapping, validate, reset, make_validator}
use vlai_l1_runtime.Cameras.Invariant.{
  IsWellFormed, validate_ne_key_error, validate-IsWellFormed, reset_ne_key_error,
  reset-IsWellFormed,
}

pub data Call (F : Type 0) : Type 0 where
  validating : FrameMapping F → Value F → Call F
  resetting : Mapping F → Call F

-- A validator as its constructor leaves it has accepted nothing.
pub IsNew-IsWellFormed : (v : Validator) → v.previous ≡ none → IsWellFormed v
IsNew-IsWellFormed v h = record {
  complete = λ previous e. absurd (cc (h, e));
  differing = λ previous epochs e e'. absurd (cc (h, e));
}

abbrev raised {ℓ} : {A : Type ℓ} → Result CameraError A → Option CameraError
raised (ok a) = none
raised (err e) = some e

module _ {F : Type 0} where
  -- What the call raises, and the validator after it.
  unfoldable pub perform : Call F → Validator → Option CameraError × Validator
  perform (validating candidates now_ns) v =
      (raised (validate candidates now_ns v).0, (validate candidates now_ns v).1)
  perform (resetting restarted_epochs) v =
      (raised (reset restarted_epochs v).0, (reset restarted_epochs v).1)

  unfoldable pub run : List (Call F) → Validator → Validator
  unfolding perform
  run [] v = v
  run (call ∷ calls) v = run calls (perform call v).1

  unfoldable pub exceptions : List (Call F) → Validator → List (Option CameraError)
  unfolding perform
  exceptions [] v = []
  exceptions (call ∷ calls) v = (perform call v).0 ∷ exceptions calls (perform call v).1

  perform-IsWellFormed :
      (call : Call F) (v : Validator) → IsWellFormed v → IsWellFormed (perform call v).1
  unfolding perform
  perform-IsWellFormed (validating candidates now_ns) v w =
      validate-IsWellFormed candidates now_ns v w
  perform-IsWellFormed (resetting restarted_epochs) v w = reset-IsWellFormed restarted_epochs v w

  perform_ne_key_error :
      (call : Call F) (v : Validator) → IsWellFormed v → (perform call v).0 ≢ some key_error
  unfolding perform
  perform_ne_key_error (validating candidates now_ns) v w h =
      ground (arith, validate_ne_key_error candidates now_ns v w)
  perform_ne_key_error (resetting restarted_epochs) v w h =
      ground (arith, reset_ne_key_error restarted_epochs v w)

  exceptions_from_ne_key_error :
      (calls : List (Call F)) (v : Validator)
      → IsWellFormed v
      → All (λ e. e ≢ some key_error) (exceptions calls v)
  unfolding exceptions
  exceptions_from_ne_key_error [] v w = tt
  exceptions_from_ne_key_error (call ∷ calls) v w = (
    perform_ne_key_error call v w,
    exceptions_from_ne_key_error calls (perform call v).1 (perform-IsWellFormed call v w),
  )

  -- The sets that `validate` returns over the calls.
  unfoldable pub sets : List (Call F) → Validator → List (List (String × CameraFrameMetadata))
  unfolding perform
  sets [] v = []
  sets (validating candidates now_ns ∷ calls) v =
      let rest = sets calls (validate candidates now_ns v).1 in
      elim (validate candidates now_ns v).0 [ err e ↦ rest | ok current ↦ current ∷ rest ]
  sets (resetting restarted_epochs ∷ calls) v = sets calls (reset restarted_epochs v).1

module _ (fl : Floats) (nanoseconds : fl.F → ℕ) where
  open fl use {F}

  pub make_validator-previous :
      (config : Received (CamerasFields F)) (roles : Option (List String)) (v : Validator)
      → make_validator fl nanoseconds config roles ≡ ok v
      → v.previous ≡ none
  unfolding make_validator
  make_validator-previous config roles v h = ground arith

  -- No call of a constructed validator raises a KeyError: over any calls, every role that it looks up
  -- in the enabled streams or in the last accepted set is there.
  pub exceptions_ne_key_error :
      (config : Received (CamerasFields F)) (roles : Option (List String)) (v : Validator)
      → make_validator fl nanoseconds config roles ≡ ok v
      → (calls : List (Call F)) → All (λ e. e ≢ some key_error) (exceptions calls v)
  exceptions_ne_key_error config roles v h calls =
      exceptions_from_ne_key_error calls v
        (IsNew-IsWellFormed v (make_validator-previous config roles v h))
