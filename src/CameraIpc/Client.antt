-- ===== src/CameraIpc/Client.antt =====
-- The responses on the wire, and how `capture` of the client reads one.
use vlai_l1_runtime.Prelude.{
  ℕ, ◌+◌, ◌*◌, String, Bool, true, false, not, Option, none, some, List, [], ◌∷◌, ◌++◌, length, leb,
  if◌then◌else◌,
}
use mathlib.Core.List.{reverse}
use vlai_l1_runtime.Prelude.Int.{pos}
use vlai_l1_runtime.Prelude.Result.{Result, ok, err}
use vlai_l1_runtime.Prelude.Exec.{Exec, lift, guard, ◌>>=◌, ◌>>◌}
use vlai_l1_runtime.Prelude.Text.{codes}
use vlai_l1_runtime.Prelude.Bytes.{little, to_little, join}
use vlai_l1_runtime.Cameras.Config.{CameraConfig}
use vlai_l1_runtime.Collection.Images.{Images}
use vlai_l1_runtime.Collection.Sample.{CameraSample}
use vlai_l1_runtime.CameraIpc.Json.{
  Json, flag, int, text, list, object, Fields, field, no_more, JsonCodec, jsons, get, is_number,
  holds, nonnegative,
}
use vlai_l1_runtime.CameraIpc.Stream.{Socket, Closed, closed, receive_exact}
use vlai_l1_runtime.CameraIpc.Frames.{
  IpcError, closed_connection, too_large, bad_json, not_an_object, bad_version, bad_status,
  bad_error_fields, error_missing, error_with_payload, bad_changed, bad_fields, bad_payload_bytes,
  payload_exceeds, reported, unchanged_with_payload, not_dumped, FrameCodec, has_exactly,
  encode_loop, decode_samples,
}

-- `_MAX_HEADER_BYTES`
abbrev pub max_header_bytes : ℕ
max_header_bytes = 65536

-- `_LENGTH`, four bytes, the highest first
abbrev pub pack_length : ℕ → List ℕ
pack_length n = reverse (to_little 4 n)

abbrev pub unpack_length : List ℕ → ℕ
unpack_length bytes = little (reverse bytes)

abbrev pub received : Exec Socket Closed (List ℕ) → Exec Socket IpcError (List ℕ)
received m socket = elim (m socket).0 [
  | err closed ↦ (err closed_connection, (m socket).1)
  | ok bytes ↦ (ok bytes, (m socket).1)
]

abbrev response_names : Bool → List String
response_names true =
    "ok" ∷ "version" ∷ "changed" ∷ "contract_digest" ∷ "arrays" ∷ "payload_bytes" ∷ []
response_names false = "ok" ∷ "version" ∷ "changed" ∷ "payload_bytes" ∷ []

module _ {F : Type 0} where
  abbrev loaded : Option (Json F) → Result IpcError (Fields F)
  loaded none = err bad_json
  loaded (some (object fields)) = ok fields
  loaded (some _) = err not_an_object

  abbrev bool_in : Option (Json F) → Option Bool
  bool_in (some (flag b)) = some b
  bool_in _ = none

  abbrev has_detail : Option (Json F) → Bool
  has_detail (some (text s)) = elim (codes s) [ [] ↦ false | c ∷ cs ↦ true ]
  has_detail _ = false

  abbrev natural_in : Option (Json F) → Result IpcError ℕ
  natural_in v = elim (nonnegative v) [ none ↦ err bad_payload_bytes | some n ↦ ok n ]

  abbrev is_ok : Option (Json F) → Bool
  is_ok (some (flag true)) = true
  is_ok _ = false

module _ {F : Type 0} (js : JsonCodec F) where
  -- `_send_response`: the bytes that it sends.
  unfoldable pub send_response : Fields F → List ℕ → Result IpcError (List ℕ)
  send_response header payload = elim (js.dumps (object header)) [
    | none ↦ err not_dumped
    | some encoded ↦
        if leb (length encoded) max_header_bytes
        then ok (pack_length (length encoded) ++ (encoded ++ payload))
        else err too_large
  ]

  -- `_receive_header`
  unfoldable pub receive_header : Exec Socket IpcError (Fields F)
  receive_header = do
    prefix ← received (receive_exact 4)
    guard (leb (unpack_length prefix) max_header_bytes) too_large
    encoded ← received (receive_exact (unpack_length prefix))
    lift (loaded (js.loads encoded))

  abbrev error_header : Fields F → Result IpcError Bool
  error_header header =
      if not (has_exactly ("ok" ∷ "version" ∷ "error" ∷ "payload_bytes" ∷ []) header)
      then err bad_error_fields
      else if not (has_detail (get "error" header))
      then err error_missing
      else if not (holds (is_number js 0) (get "payload_bytes" header))
      then err error_with_payload
      else ok false

  abbrev success_header : Fields F → Option Bool → Result IpcError Bool
  success_header header none = err bad_changed
  success_header header (some changed) =
      if has_exactly (response_names changed) header then ok changed else err bad_fields

  abbrev status_header : Fields F → Option Bool → Result IpcError Bool
  status_header header none = err bad_status
  status_header header (some false) = error_header header
  status_header header (some true) = success_header header (bool_in (get "changed" header))

  -- `_validate_response_header`
  unfoldable pub validate_response_header : Fields F → Result IpcError Bool
  unfolding has_exactly
  validate_response_header header =
      if holds (is_number js 1) (get "version" header)
      then status_header header (bool_in (get "ok" header))
      else err bad_version

abbrev pub image_bytes : List (String × CameraConfig) → ℕ
image_bytes [] = 0
image_bytes ((role, stream) ∷ streams) = stream.width * stream.height * 3 + image_bytes streams

abbrev no_bytes : List ℕ → Bool
no_bytes [] = true
no_bytes (b ∷ bs) = false

module _ {F : Type 0} where
  -- The header of a response with samples.
  abbrev pub samples_header : (digest : String) → List (Json F) → ℕ → Fields F
  samples_header digest arrays payload_bytes = field "ok" (flag true) (
      field "version" (int (pos 1)) (
        field "changed" (flag true) (
          field "contract_digest" (text digest) (
            field "arrays" (list (jsons arrays))
              (field "payload_bytes" (int (pos payload_bytes)) no_more)))))

module _ {im : Images} {F : Type 0} (codec : FrameCodec im) (js : JsonCodec F) where
  abbrev samples_of :
      List (String × CameraConfig)
      → String
      → Fields F
      → List ℕ
      → Bool
      → Result IpcError (Option (List (String × CameraSample im)))
  samples_of streams digest header payload false =
      if no_bytes payload then ok none else err unchanged_with_payload
  samples_of streams digest header payload true =
      elim (decode_samples codec js streams digest header payload) [
        | err e ↦ err e
        | ok samples ↦ ok (some samples)
      ]

  -- What `capture` does with one response: no samples where nothing has changed.
  unfoldable pub receive_response :
      List (String × CameraConfig)
      → (digest : String) → Exec Socket IpcError (Option (List (String × CameraSample im)))
  unfolding receive_header validate_response_header decode_samples
  receive_response streams digest = do
    header ← receive_header js
    changed ← lift (validate_response_header js header)
    payload_bytes ← lift (natural_in (get "payload_bytes" header))
    guard (leb payload_bytes (image_bytes streams)) payload_exceeds
    payload ← received (receive_exact payload_bytes)
    guard (is_ok (get "ok" header)) reported
    lift (samples_of streams digest header payload changed)

module _ {im : Images} (codec : FrameCodec im) {F : Type 0} where
  -- `_encode_samples`
  unfoldable pub encode_samples :
      List (String × CameraConfig)
      → (digest : String) → List (String × CameraSample im)
      → Result IpcError (Fields F × List ℕ)
  unfolding encode_loop
  encode_samples streams digest samples = elim (encode_loop codec {F = F} streams samples 0) [
    | err e ↦ err e
    | ok encoded ↦ ok (samples_header digest encoded.0 (length (join encoded.1)), join encoded.1)
  ]
