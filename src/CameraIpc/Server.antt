-- ===== src/CameraIpc/Server.antt =====
-- The requests that the server answers: `_response` and `response`.
use vlai_l1_runtime.Prelude.{
  ℕ, ◌-◌, String, Bool, true, false, not, ◌&&◌, Option, none, some, List, [], ◌∷◌, ltb, leb,
  if◌then◌else◌,
}
use vlai_l1_runtime.Prelude.Int.{ℤ, pos, negsuc}
use vlai_l1_runtime.Prelude.Result.{Result, ok, err, ◌>>=◌, ◌>>◌, guard}
use vlai_l1_runtime.Prelude.Value.{Floats}
use vlai_l1_runtime.Contracts.{lookup, keys, names_eq}
use vlai_l1_runtime.Cameras.Config.{CameraConfig}
use vlai_l1_runtime.Cameras.Validator.{latest_of, earliest_of}
use vlai_l1_runtime.Collection.Images.{Images}
use vlai_l1_runtime.Collection.Sample.{CameraSample}
use vlai_l1_runtime.CameraIpc.Json.{
  Json, flag, int, real, text, object, Fields, field, no_more, JsonCodec, get, names_in, is_number,
  is_text, holds,
}
use vlai_l1_runtime.CameraIpc.Frames.{
  IpcError, not_an_object, request_fields, bad_version, bad_operation, contract_differs, bad_map,
  bad_sequence, bad_wait, wait_too_long, missing_role, no_streams, FrameCodec, has_exactly,
}
use vlai_l1_runtime.CameraIpc.Client.{encode_samples}

-- What `_response` reads of a request that it accepts: the last numbers by role, and the wait.
pub record Request (F : Type 0) : Type 0 where
  pub after : List (String × ℤ)
  pub wait_s : F

-- One turn of the loop: the samples of the source, and whether the deadline has passed then.
pub record Poll (im : Images) : Type 0 where
  pub samples : List (String × CameraSample im)
  pub expired : Bool

-- `waiting` is the loop before its next turn.
pub data Outcome (im : Images) : Type 0 where
  waiting unchanged : Outcome im
  changed : List (String × CameraSample im) → Outcome im

module _ (fl : Floats) (js : JsonCodec fl.F) (max_wait_s : fl.F) where
  open fl use {F, is_finite, of_int, lt, zero_value}

  abbrev finite_positive : F → Result IpcError F
  finite_positive x = if is_finite x && lt zero_value x then ok x else err bad_wait

  -- `_finite_positive`; of a huge int it raises an OverflowError, which `response` answers likewise.
  abbrev positive_seconds : Option (Json F) → Result IpcError F
  positive_seconds (some (int z)) = elim (of_int z) [
    | none ↦ err bad_wait
    | some x ↦ finite_positive x
  ]
  positive_seconds (some (real x)) = finite_positive x
  positive_seconds _ = err bad_wait

  -- `_nonnegative_integer(..., allow_minus_one=True)`
  abbrev number_or_minus_one : Option (Json F) → Result IpcError ℤ
  number_or_minus_one (some (int (pos n))) = ok (pos n)
  number_or_minus_one (some (int (negsuc n))) = if leb n 0 then ok (negsuc n) else err bad_sequence
  number_or_minus_one _ = err bad_sequence

  unfoldable pub sequences : List String → Fields F → Result IpcError (List (String × ℤ))
  sequences [] after = ok []
  sequences (role ∷ roles) after = do
    n ← number_or_minus_one (get role after)
    rest ← sequences roles after
    ok ((role, n) ∷ rest)

  abbrev fields_of_request : Json F → Result IpcError (Fields F)
  fields_of_request (object fields) = ok fields
  fields_of_request _ = err not_an_object

  abbrev map_of : List String → Option (Json F) → Result IpcError (Fields F)
  map_of roles (some (object after)) =
      if names_eq (names_in after) roles then ok after else err bad_map
  map_of roles _ = err bad_map

  -- The checks of `_response` before its loop.
  unfoldable pub read_request :
      List String → (digest : String) → Json F → Result IpcError (Request F)
  unfolding has_exactly sequences names_eq
  read_request roles digest request = do
    fields ← fields_of_request request
    guard (has_exactly ("version" ∷ "op" ∷ "contract_digest" ∷ "after" ∷ "wait_s" ∷ []) fields)
        request_fields
    guard (holds (is_number js 1) (get "version" fields)) bad_version
    guard (holds (is_text "next") (get "op" fields)) bad_operation
    guard (holds (is_text digest) (get "contract_digest" fields)) contract_differs
    map_fields ← map_of roles (get "after" fields)
    after ← sequences roles map_fields
    wait_s ← positive_seconds (get "wait_s" fields)
    guard (not (lt max_wait_s wait_s)) wait_too_long
    ok (record { after = after; wait_s = wait_s })

abbrev pub is_together : ℕ → List ℕ → Result IpcError Bool
is_together max_skew_ns [] = err no_streams
is_together max_skew_ns (t ∷ ts) = ok (leb (latest_of (t ∷ ts) - earliest_of (t ∷ ts)) max_skew_ns)

abbrev pub is_above : ℤ → ℕ → Bool
is_above (pos m) n = ltb m n
is_above (negsuc m) n = true

module _ {im : Images} where
  abbrev pub times_of : List (String × CameraSample im) → List ℕ
  times_of [] = []
  times_of ((role, sample) ∷ rest) = sample.metadata.monotonic_ns ∷ times_of rest

  -- `all(samples[role].metadata.source_sequence > sequence_after[role] for role in roles)`
  unfoldable pub all_changed : List (String × ℤ) → List (String × CameraSample im) → Bool
  unfolding lookup
  all_changed [] samples = true
  all_changed ((role, n) ∷ after) samples =
      let rest = all_changed after samples in
      elim (lookup role samples) [
        | none ↦ false
        | some sample ↦ is_above n sample.metadata.source_sequence && rest
      ]

  -- One turn of the loop.
  unfoldable pub turn :
      List String → (max_skew_ns : ℕ) → List (String × ℤ) → Poll im → Result IpcError (Outcome im)
  unfolding all_changed names_eq
  turn roles max_skew_ns after poll =
      if not (names_eq (keys poll.samples) roles)
      then err missing_role
      else elim (is_together max_skew_ns (times_of poll.samples)) [
        | err e ↦ err e
        | ok together ↦
            if all_changed after poll.samples && together
            then ok (changed poll.samples)
            else if poll.expired
            then ok unchanged
            else ok waiting
      ]

  -- The loop, over what the source and the clock give at each turn.
  unfoldable pub poll_loop :
      List String
      → (max_skew_ns : ℕ) → List (String × ℤ)
      → List (Poll im)
      → Result IpcError (Outcome im)
  unfolding turn
  poll_loop roles max_skew_ns after [] = ok waiting
  poll_loop roles max_skew_ns after (poll ∷ polls) =
      let rest = poll_loop roles max_skew_ns after polls in
      elim (turn roles max_skew_ns after poll) [ ok waiting ↦ rest | done ↦ done ]

-- The version, and what `response` gives back: a header and a payload.
module _ (fl : Floats) (js : JsonCodec fl.F) (max_wait_s : fl.F) {im : Images}
    (codec : FrameCodec im) (describe : IpcError → String) where
  open fl use {F}

  abbrev unchanged_header : Fields F
  unchanged_header = field "ok" (flag true) (
      field "version" (int (pos 1))
        (field "changed" (flag false) (field "payload_bytes" (int (pos 0)) no_more)))

  abbrev error_response : IpcError → Fields F × List ℕ
  error_response e = (
    field "ok" (flag false) (
        field "version" (int (pos 1))
          (field "error" (text (describe e)) (field "payload_bytes" (int (pos 0)) no_more))),
    [],
  )

  abbrev answer :
      List (String × CameraConfig)
      → String
      → Result IpcError (Outcome im)
      → Option (Fields F × List ℕ)
  answer streams digest (err e) = some (error_response e)
  answer streams digest (ok waiting) = none
  answer streams digest (ok unchanged) = some (unchanged_header, [])
  answer streams digest (ok (changed samples)) =
      elim (encode_samples codec {F = F} streams digest samples) [
        | err e ↦ some (error_response e)
        | ok r ↦ some r
      ]

  -- `response`; none while the loop waits.
  unfoldable pub response :
      List (String × CameraConfig)
      → (digest : String) → (max_skew_ns : ℕ) → Json F
      → List (Poll im)
      → Option (Fields F × List ℕ)
  unfolding read_request poll_loop encode_samples
  response streams digest max_skew_ns request polls =
      elim (read_request fl js max_wait_s (keys streams) digest request) [
        | err e ↦ some (error_response e)
        | ok r ↦ answer streams digest (poll_loop (keys streams) max_skew_ns r.after polls)
      ]
