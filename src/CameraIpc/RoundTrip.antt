-- ===== src/CameraIpc/RoundTrip.antt =====
-- What the server encodes, the client decodes.
use vlai_l1_runtime.Prelude.{
  ℕ, ◌+◌, ◌*◌, ◌≤◌, String, ◌≡◌, refl, ap, sym, ◌≢◌, ◌∙◌, subst, true, none, some, List, [], ◌∷◌,
  ◌++◌, length, suc, take, drop, leb, le→leb, inl, inr, arith, eq_iff, ==_refl, All, Option-cases,
  length-append, take-append, drop-append,
}
use mathlib.Core.List.{append_assoc, append-nil}
use vlai_l1_runtime.Prelude.Bytes.{join}
use vlai_l1_runtime.Prelude.Text.{codes, is_normalized}
use vlai_l1_runtime.Prelude.Result.{ok, Result-cases}
use vlai_l1_runtime.Contracts.{lookup, contains, subset, require_normalized}
use vlai_l1_runtime.Cameras.Config.{CameraConfig}
use vlai_l1_runtime.Cameras.Frames.{CameraFrameMetadata, make_frame_metadata}
use vlai_l1_runtime.Collection.Images.{Images, Image, validate_camera_image}
use vlai_l1_runtime.Collection.Sample.{CameraSample}
use vlai_l1_runtime.Collection.Assembler.{fields_of}
use vlai_l1_runtime.CameraIpc.Json.{Json, object, JsonCodec}
use vlai_l1_runtime.CameraIpc.Frames.{
  FrameCodec, shape_of, device_text, descriptor, encode_loop, dtypes, descriptor_names, has_exactly,
  is_expected, frame_fields, decode_one, decode_loop,
}

-- What the codec is to do: `plain` is the image as an array of numpy, which the bytes hold.
pub record HasFrames {im : Images} (codec : FrameCodec im) : Type 0 where
  pub plain : Image im → Image im
  pub one_dtype :
      (i : Image im) (stream : CameraConfig) (dtype : String) (bytes : List ℕ)
      → codec.encode i (shape_of stream) ≡ some (dtype, bytes)
      → contains dtype dtypes ≡ true
  pub size :
      (i : Image im) (stream : CameraConfig) (dtype : String) (bytes : List ℕ)
      → codec.encode i (shape_of stream) ≡ some (dtype, bytes)
      → length bytes ≡ stream.height * stream.width * 3
  pub decoded :
      (i : Image im) (stream : CameraConfig) (dtype : String) (bytes : List ℕ)
      → codec.encode i (shape_of stream) ≡ some (dtype, bytes)
      → codec.decode bytes (shape_of stream) dtype ≡ some (plain i)
  pub plain_valid :
      (i : Image im) (stream : CameraConfig)
      → validate_camera_image i stream ≡ ok tt
      → validate_camera_image (plain i) stream ≡ ok tt

-- Metadata as its constructor returns it.
abbrev pub IsMade : Type 0 → CameraFrameMetadata → Type 0
IsMade F m = make_frame_metadata {F = F} (fields_of m) ≡ ok m

module _ {F : Type 0} (js : JsonCodec F) where
  descriptor-has_exactly :
      (stream : CameraConfig) (m : CameraFrameMetadata) (role dtype : String) (offset nbytes : ℕ)
      → has_exactly descriptor_names (descriptor {F = F} stream m role dtype offset nbytes) ≡ true
  unfolding has_exactly subset contains
  descriptor-has_exactly stream m role dtype offset nbytes = refl

  descriptor-is_expected :
      {im : Images} (codec : FrameCodec im) (stream : CameraConfig) (m : CameraFrameMetadata)
      (role dtype : String) (offset : ℕ)
      → contains dtype dtypes ≡ true
      → m.device_id ≡ device_text stream
      → is_expected codec js role stream offset
          (descriptor stream m role dtype offset (stream.height * stream.width * 3))
        ≡ true
  unfolding is_expected contains
  descriptor-is_expected codec stream m role dtype offset typed device = ground (
    arith,
    typed,
    eq_iff role role,
    eq_iff m.device_id (device_text stream),
    ==_refl stream.height,
    ==_refl stream.width,
    ==_refl offset,
    ==_refl (stream.height * stream.width * 3),
  )

IsMade-normalized :
    (F : Type 0) (m : CameraFrameMetadata) → IsMade F m → is_normalized m.stream_epoch ≡ true
unfolding make_frame_metadata require_normalized
IsMade-normalized F m h = ground arith

is_normalized-codes : (s : String) → is_normalized s ≡ true → codes s ≢ []
unfolding is_normalized
is_normalized-codes s h e = ground (arith, e)

module _ {F : Type 0} (js : JsonCodec F) {im : Images} (codec : FrameCodec im)
    (frames : HasFrames codec) where
  abbrev plain_sample : CameraSample im → CameraSample im
  plain_sample sample = record { metadata = sample.metadata; image = frames.plain sample.image }

  decode_one-descriptor :
      (role : String) (stream : CameraConfig) (sample : CameraSample im) (dtype : String)
      (bytes : List ℕ) (offset : ℕ) (payload : List ℕ)
      → sample.metadata.role ≡ role
      → sample.metadata.device_id ≡ device_text stream
      → IsMade F sample.metadata
      → validate_camera_image sample.image stream ≡ ok tt
      → codec.encode sample.image (shape_of stream) ≡ some (dtype, bytes)
      → offset + length bytes ≤ length payload
      → take (length bytes) (drop offset payload) ≡ bytes
      → decode_one codec js role stream
          (descriptor stream sample.metadata role dtype offset (length bytes))
          offset
          payload
        ≡ ok (plain_sample sample)
  unfolding decode_one
  decode_one-descriptor role stream sample dtype bytes offset payload named device made valid
        encoded inside cut =
      let size = frames.size sample.image stream dtype bytes encoded in
      let exact =
        descriptor-has_exactly js stream sample.metadata role dtype offset (length bytes) in
      let expected : is_expected codec js role stream offset
            (descriptor stream sample.metadata role dtype offset (length bytes))
          ≡ true =
        subst
          (λ n.
            is_expected codec js role stream offset
              (descriptor stream sample.metadata role dtype offset n)
            ≡ true)
          (sym size)
          (descriptor-is_expected js codec stream sample.metadata role dtype offset
            (frames.one_dtype sample.image stream dtype bytes encoded) device) in
      let decoded = frames.decoded sample.image stream dtype bytes encoded in
      let plain_valid = frames.plain_valid sample.image stream valid in
      let area = stream.height * stream.width * 3 in
      let cut_area : take area (drop offset payload) ≡ bytes =
        subst (λ n. take n (drop offset payload) ≡ bytes) size cut in
      let inside_area : leb (offset + area) (length payload) ≡ true =
        subst (λ n. leb (offset + n) (length payload) ≡ true) size
          (le→leb (offset + length bytes) (length payload) inside) in
      let same : frame_fields role stream sample.metadata.stream_epoch
            sample.metadata.source_sequence sample.metadata.monotonic_ns
          ≡ sample.metadata =
        cc (named, device) in
      let again : make_frame_metadata {F = F} (
            fields_of (
              frame_fields role stream sample.metadata.stream_epoch sample.metadata.source_sequence
                sample.metadata.monotonic_ns))
          ≡ ok sample.metadata =
        subst (λ m. make_frame_metadata {F = F} (fields_of m) ≡ ok sample.metadata) (sym same)
          made in
      let epoch =
        is_normalized-codes sample.metadata.stream_epoch
          (IsMade-normalized F sample.metadata made) in
      ground (arith, exact, expected, cut_area, inside_area, again, decoded, plain_valid, epoch)

  -- The samples that the loop sends, each with its image as an array.
  abbrev pub sent :
      List (String × CameraConfig)
      → List (String × CameraSample im)
      → List (String × CameraSample im)
  sent [] samples = []
  sent ((role, stream) ∷ streams) samples =
      let rest = sent streams samples in
      elim (lookup role samples) [ none ↦ rest | some sample ↦ (role, plain_sample sample) ∷ rest ]

  -- Every sample of the streams has metadata as its constructor returns it.
  abbrev pub AllMade : List (String × CameraConfig) → List (String × CameraSample im) → Type 0
  AllMade streams samples =
      All
        (λ (entry : String × CameraConfig).
          (sample : CameraSample im)
          → lookup entry.0 samples ≡ some sample
          → IsMade F sample.metadata)
        streams

  pub decode_loop-encode_loop :
      (streams : List (String × CameraConfig)) (samples : List (String × CameraSample im))
      (before : List ℕ) (arrays : List (Json F)) (chunks : List (List ℕ))
      → AllMade streams samples
      → encode_loop codec streams samples (length before) ≡ ok (arrays, chunks)
      → (length arrays ≡ length streams)
        × (decode_loop codec js streams arrays (length before) (before ++ join chunks)
            ≡ ok (sent streams samples, length (before ++ join chunks)))
  unfolding encode_loop decode_loop
  decode_loop-encode_loop [] samples before [] [] made h =
      (refl, ap (λ l. ok ([], length l)) (sym (append-nil before)))
  decode_loop-encode_loop [] samples before (a ∷ arrays) chunks made h = cc
  decode_loop-encode_loop [] samples before [] (c ∷ chunks) made h = cc
  decode_loop-encode_loop ((role, stream) ∷ streams) samples before arrays chunks (first, made) h =
      elim (Option-cases (lookup role samples)) [
        | inl nothing ↦ absurd (ground (arith, nothing))
        | inr (sample, found) ↦ elim (Option-cases (codec.encode sample.image (shape_of stream))) [
          | inl nothing ↦ absurd (ground (arith, found, nothing))
          | inr ((dtype, bytes), encoded) ↦
              let offset = length before in
              elim (Result-cases
                (encode_loop codec {F = F} streams samples (offset + length bytes))) [
                  | inr (x, failed) ↦ absurd (ground (arith, found, encoded, failed))
                  | inl ((descriptors, parts), others) ↦
                      let described : arrays
                          ≡ object
                              (descriptor stream sample.metadata role dtype offset (length bytes))
                            ∷ descriptors =
                        ground (arith, found, encoded, others) in
                      let chunked : chunks ≡ bytes ∷ parts =
                        ground (arith, found, encoded, others) in
                      let valid : validate_camera_image sample.image stream ≡ ok tt =
                        ground (arith, found, encoded, others) in
                      let named : sample.metadata.role ≡ role =
                        ground (arith, found, encoded, others, eq_iff sample.metadata.role role) in
                      let device : sample.metadata.device_id ≡ device_text stream = ground (
                        arith,
                        found,
                        encoded,
                        others,
                        eq_iff sample.metadata.device_id (device_text stream),
                      ) in
                      let whole = before ++ (bytes ++ join parts) in
                      let joined : (before ++ bytes) ++ join parts ≡ whole =
                        append_assoc before bytes (join parts) in
                      let behind : drop offset whole ≡ bytes ++ join parts =
                        drop-append before (bytes ++ join parts) in
                      let one =
                        decode_one-descriptor role stream sample dtype bytes offset whole named
                          device (first sample found) valid encoded
                          (omega (
                            arith,
                            length-append before (bytes ++ join parts),
                            length-append bytes (join parts),
                          ))
                          (ap (take (length bytes)) behind ∙ take-append bytes (join parts)) in
                      let area : length bytes ≡ stream.height * stream.width * 3 =
                        frames.size sample.image stream dtype bytes encoded in
                      let next : length (before ++ bytes)
                          ≡ offset + stream.height * stream.width * 3 =
                        length-append before bytes ∙ ap (λ n. offset + n) area in
                      let (count, rest) =
                        decode_loop-encode_loop streams samples (before ++ bytes) descriptors parts
                          made
                          (subst
                            (λ n. encode_loop codec streams samples n ≡ ok (descriptors, parts))
                            (sym (length-append before bytes)) others) in
                      let rest_area : decode_loop codec js streams descriptors
                            (offset + stream.height * stream.width * 3) whole
                          ≡ ok (sent streams samples, length whole) =
                        subst
                          (λ n.
                            decode_loop codec js streams descriptors n whole
                            ≡ ok (sent streams samples, length whole))
                          next
                          (subst
                            (λ l.
                              decode_loop codec js streams descriptors (length (before ++ bytes)) l
                              ≡ ok (sent streams samples, length l))
                            joined rest) in
                      rw (described, chunked) (ap suc count, ground (arith, one, rest_area, found))
                ]
        ]
      ]
