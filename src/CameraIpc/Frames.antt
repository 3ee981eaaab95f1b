-- ===== src/CameraIpc/Frames.antt =====
-- `_encode_samples` of the server and `_decode_samples` of the client.
use vlai_l1_runtime.Prelude.{
  ℕ, ◌+◌, ◌*◌, String, Bool, ◌&&◌, ◌||◌, Option, none, some, List, [], ◌∷◌, length, take, drop, leb,
  ◌==◌, str_eq, if◌then◌else◌,
}
use vlai_l1_runtime.Prelude.Int.{pos}
use vlai_l1_runtime.Prelude.Result.{Result, ok, err, ◌>>=◌, ◌>>◌, guard}
use vlai_l1_runtime.Prelude.Text.{codes}
use vlai_l1_runtime.Contracts.{lookup, subset}
use vlai_l1_runtime.Cameras.Config.{CameraConfig}
use vlai_l1_runtime.Cameras.Frames.{CameraError, CameraFrameMetadata, make_frame_metadata}
use vlai_l1_runtime.Collection.Images.{Images, Image, ImageError, validate_camera_image}
use vlai_l1_runtime.Collection.Sample.{CameraSample}
use vlai_l1_runtime.Collection.Assembler.{fields_of}
use vlai_l1_runtime.CameraIpc.Json.{
  Json, int, text, list, object, Fields, field, no_more, JsonCodec, get, names_in, json_items,
  jsons, is_number, is_text, are_numbers, holds, nonnegative,
}

-- Each `raise`, with what it passes on; `fault` is an exception of the frame codec.
pub data IpcError : Type 0 where
  closed_connection too_large bad_json not_an_object : IpcError
  bad_version bad_status bad_error_fields error_missing error_with_payload : IpcError
  bad_changed bad_fields bad_payload_bytes payload_exceeds reported unchanged_with_payload :
      IpcError
  contract_differs arrays_missing descriptor_invalid descriptor_differs bad_epoch : IpcError
  bad_sequence bad_time truncated trailing_bytes : IpcError
  bad_image : ImageError → IpcError
  bad_metadata : CameraError → IpcError
  identity_differs key_error fault not_dumped no_streams : IpcError
  request_fields bad_operation bad_map bad_wait wait_too_long missing_role : IpcError

-- `FrameCodec`, which raises where it gives none.
pub record FrameCodec (im : Images) : Type 0 where
  pub encode : Image im → List ℕ → Option (String × List ℕ)
  pub decode : List ℕ → List ℕ → String → Option (Image im)

abbrev pub shape_of : CameraConfig → List ℕ
shape_of stream = stream.height ∷ stream.width ∷ 3 ∷ []

-- `str(stream.device_id)`
abbrev pub device_text : CameraConfig → String
device_text stream = elim stream.device_id [ none ↦ "None" | some d ↦ d ]

abbrev present : {A : Type 0} → Option A → IpcError → Result IpcError A
present none e = err e
present (some a) e = ok a

abbrev pub check_image : {im : Images} → Image im → CameraConfig → Result IpcError (Unit {0})
check_image image stream = elim (validate_camera_image image stream) [
  | err e ↦ err (bad_image e)
  | ok u ↦ ok tt
]

module _ {F : Type 0} where
  abbrev pub json_numbers : List ℕ → List (Json F)
  json_numbers [] = []
  json_numbers (n ∷ ns) = int (pos n) ∷ json_numbers ns

  -- The entry of one array in the header.
  abbrev pub descriptor :
      CameraConfig → CameraFrameMetadata → String → String → (offset nbytes : ℕ) → Fields F
  descriptor stream metadata role dtype offset nbytes = field "role" (text role) (
      field "device_id" (text metadata.device_id) (
        field "stream_epoch" (text metadata.stream_epoch) (
          field "source_sequence" (int (pos metadata.source_sequence)) (
            field "monotonic_ns" (int (pos metadata.monotonic_ns)) (
              field "shape" (list (jsons (json_numbers (shape_of stream)))) (
                field "dtype" (text dtype) (
                  field "offset" (int (pos offset))
                    (field "nbytes" (int (pos nbytes)) no_more))))))))

module _ {im : Images} (codec : FrameCodec im) {F : Type 0} where
  -- The loop of `_encode_samples`: the descriptors and the chunks, from an offset on.
  unfoldable pub encode_loop :
      List (String × CameraConfig)
      → List (String × CameraSample im)
      → ℕ
      → Result IpcError (List (Json F) × List (List ℕ))
  unfolding lookup
  encode_loop [] samples offset = ok ([], [])
  encode_loop ((role, stream) ∷ streams) samples offset = do
    sample ← present (lookup role samples) key_error
    check_image sample.image stream
    guard
        (str_eq sample.metadata.role role && str_eq sample.metadata.device_id (device_text stream))
        identity_differs
    encoded ← present (codec.encode sample.image (shape_of stream)) fault
    rest ← encode_loop streams samples (offset + length encoded.1)
    ok (
      object (descriptor stream sample.metadata role encoded.0 offset (length encoded.1)) ∷ rest.0,
      encoded.1 ∷ rest.1,
    )

abbrev pub dtypes : List String
dtypes = "|u1" ∷ "<u1" ∷ ">u1" ∷ []

abbrev pub descriptor_names : List String
descriptor_names =
    "role" ∷ "device_id" ∷ "stream_epoch" ∷ "source_sequence" ∷ "monotonic_ns" ∷ "shape" ∷ "dtype"
    ∷ "offset" ∷ "nbytes" ∷ []

-- `set(value) == {...}`
unfoldable pub has_exactly : {F : Type 0} → List String → Fields F → Bool
unfolding subset
has_exactly names fields = subset (names_in fields) names && subset names (names_in fields)

abbrev one_of_dtypes : {F : Type 0} → Json F → Bool
one_of_dtypes v = is_text "|u1" v || (is_text "<u1" v || is_text ">u1" v)

-- A text that is not empty.
abbrev some_text : {F : Type 0} → Option (Json F) → Option String
some_text (some (text s)) = elim (codes s) [ [] ↦ none | c ∷ cs ↦ some s ]
some_text _ = none

abbrev text_or_empty : {F : Type 0} → Option (Json F) → String
text_or_empty (some (text s)) = s
text_or_empty _ = ""

abbrev pub frame_fields : String → CameraConfig → String → (sequence time : ℕ) → CameraFrameMetadata
frame_fields role stream epoch sequence time = record {
  role = role;
  device_id = device_text stream;
  stream_epoch = epoch;
  source_sequence = sequence;
  monotonic_ns = time;
}

abbrev made_metadata : Type 0 → CameraFrameMetadata → Result IpcError CameraFrameMetadata
made_metadata F m = elim (make_frame_metadata {F = F} (fields_of m)) [
  | err e ↦ err (bad_metadata e)
  | ok metadata ↦ ok metadata
]

module _ {im : Images} {F : Type 0} (codec : FrameCodec im) (js : JsonCodec F) where
  -- The comparison of a descriptor with the stream.
  unfoldable pub is_expected : String → CameraConfig → ℕ → Fields F → Bool
  is_expected role stream offset raw =
      holds (is_text role) (get "role" raw)
      && holds (is_text (device_text stream)) (get "device_id" raw)
      && holds (are_numbers js (shape_of stream)) (get "shape" raw)
      && holds one_of_dtypes (get "dtype" raw)
      && holds (is_number js offset) (get "offset" raw)
      && holds (is_number js (stream.height * stream.width * 3)) (get "nbytes" raw)

  -- One turn of the loop of `_decode_samples`.
  unfoldable pub decode_one :
      String → CameraConfig → Fields F → ℕ → List ℕ → Result IpcError (CameraSample im)
  unfolding is_expected has_exactly make_frame_metadata
  decode_one role stream raw offset payload = do
    guard (has_exactly descriptor_names raw) descriptor_invalid
    guard (is_expected role stream offset raw) descriptor_differs
    epoch ← present (some_text (get "stream_epoch" raw)) bad_epoch
    sequence ← present (nonnegative (get "source_sequence" raw)) bad_sequence
    time ← present (nonnegative (get "monotonic_ns" raw)) bad_time
    guard (leb (offset + stream.height * stream.width * 3) (length payload)) truncated
    image ←
        (present
          (codec.decode (take (stream.height * stream.width * 3) (drop offset payload))
            (shape_of stream) (text_or_empty (get "dtype" raw)))
          fault)
    metadata ← made_metadata F (frame_fields role stream epoch sequence time)
    check_image image stream
    ok (record { metadata = metadata; image = image })

  abbrev fields_or_invalid : Json F → Result IpcError (Fields F)
  fields_or_invalid (object fields) = ok fields
  fields_or_invalid _ = err descriptor_invalid

  -- The loop, with the offset behind it; the lists are of one length.
  unfoldable pub decode_loop :
      List (String × CameraConfig)
      → List (Json F)
      → ℕ
      → List ℕ
      → Result IpcError (List (String × CameraSample im) × ℕ)
  unfolding decode_one
  decode_loop ((role, stream) ∷ streams) (raw ∷ arrays) offset payload = do
    fields ← fields_or_invalid raw
    sample ← decode_one role stream fields offset payload
    rest ← decode_loop streams arrays (offset + stream.height * stream.width * 3) payload
    ok ((role, sample) ∷ rest.0, rest.1)
  decode_loop _ _ offset payload = ok ([], offset)

  abbrev arrays_in : Fields F → List (String × CameraConfig) → Result IpcError (List (Json F))
  arrays_in header streams = elim (get "arrays" header) [
    | some (list items) ↦
        if length (json_items items) == length streams
        then ok (json_items items)
        else err arrays_missing
    | _ ↦ err arrays_missing
  ]

  unfoldable pub decode_samples :
      List (String × CameraConfig)
      → (digest : String) → Fields F
      → List ℕ
      → Result IpcError (List (String × CameraSample im))
  unfolding decode_loop
  decode_samples streams digest header payload = do
    guard (holds (is_text digest) (get "contract_digest" header)) contract_differs
    arrays ← arrays_in header streams
    samples ← decode_loop streams arrays 0 payload
    guard (samples.1 == length payload) trailing_bytes
    ok samples.0
