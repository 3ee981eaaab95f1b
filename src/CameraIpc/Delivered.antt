-- ===== src/CameraIpc/Delivered.antt =====
-- A response with samples, from the server's encoding to what the client returns.
use vlai_l1_runtime.Prelude.{
  ℕ, ◌+◌, ◌*◌, ◌≤◌, String, ◌≡◌, refl, ap, ap₂, sym, ◌∙◌, subst, true, some, List, [], ◌∷◌, ◌++◌,
  length, leb, leb→le, le→leb, inl, inr, arith, eq_iff, ==_refl, Option-cases, Bool-cases,
  length-append,
}
use mathlib.Core.List.{reverse-reverse, append_assoc}
use native.Mathlib.Nat.{mul_comm}
use vlai_l1_runtime.Prelude.Result.{ok, Result-cases}
use vlai_l1_runtime.Prelude.Bytes.{little, to_little, little-to_little, join}
use vlai_l1_runtime.Contracts.{lookup, subset, contains}
use vlai_l1_runtime.Cameras.Config.{CameraConfig}
use vlai_l1_runtime.Collection.Images.{Images}
use vlai_l1_runtime.Collection.Sample.{CameraSample}
use vlai_l1_runtime.CameraIpc.Json.{
  Json, object, Fields, JsonCodec, HasRoundTrip, json_items, jsons,
}
use vlai_l1_runtime.CameraIpc.Stream.{Socket, receive_exact}
use vlai_l1_runtime.CameraIpc.Received.{receive_exact-ok}
use vlai_l1_runtime.CameraIpc.Frames.{
  FrameCodec, shape_of, encode_loop, decode_samples, has_exactly,
}
use vlai_l1_runtime.CameraIpc.RoundTrip.{HasFrames, AllMade, sent, decode_loop-encode_loop}
use vlai_l1_runtime.CameraIpc.Client.{
  pack_length, unpack_length, max_header_bytes, send_response, receive_header,
  validate_response_header, image_bytes, receive_response, samples_header, encode_samples,
}

unpack-pack_length : (n : ℕ) → n ≤ max_header_bytes → unpack_length (pack_length n) ≡ n
unpack-pack_length n h =
    ap little (reverse-reverse (to_little 4 n)) ∙ little-to_little 4 n (omega arith)

json_items-jsons : {F : Type 0} (vs : List (Json F)) → json_items (jsons vs) ≡ vs
json_items-jsons [] = refl
json_items-jsons (v ∷ vs) = ap (λ l. v ∷ l) (json_items-jsons vs)

module _ {F : Type 0} (js : JsonCodec F) (read_back : HasRoundTrip js) where
  -- The header comes back, and the payload is what follows it.
  receive_header-send_response :
      (header : Fields F) (payload bytes rest : List ℕ) (socket : Socket)
      → send_response js header payload ≡ ok bytes
      → join socket ≡ bytes ++ rest
      → ((receive_header js socket).0 ≡ ok header)
        × (join (receive_header js socket).1 ≡ payload ++ rest)
  unfolding send_response receive_header
  receive_header-send_response header payload bytes rest socket h joined =
      elim (Option-cases (js.dumps (object header))) [
        | inl nothing ↦ absurd (ground (arith, nothing))
        | inr (encoded, dumped) ↦ elim (Bool-cases (leb (length encoded) max_header_bytes)) [
          | inr longer ↦ absurd (ground (arith, dumped, longer))
          | inl fits ↦
              let size = length encoded in
              let prefix = pack_length size in
              let all : bytes ≡ prefix ++ (encoded ++ payload) = ground (arith, dumped, fits) in
              let first = receive_exact-ok prefix (encoded ++ (payload ++ rest)) socket (
                joined
                ∙ ap (λ l. l ++ rest) all
                ∙ append_assoc prefix (encoded ++ payload) rest
                ∙ ap (λ l. prefix ++ l) (append_assoc encoded payload rest)) in
              let second =
                receive_exact-ok encoded (payload ++ rest) (receive_exact 4 socket).1 first.1 in
              let number : unpack_length prefix ≡ size =
                unpack-pack_length size (leb→le size max_header_bytes fits) in
              let head : (receive_exact 4 socket).0 ≡ ok prefix = first.0 in
              let behind = (receive_exact 4 socket).1 in
              let body : ((receive_exact (unpack_length prefix) behind).0 ≡ ok encoded)
                  × (join (receive_exact (unpack_length prefix) behind).1 ≡ payload ++ rest) =
                subst
                  (λ n.
                    ((receive_exact n behind).0 ≡ ok encoded)
                    × (join (receive_exact n behind).1 ≡ payload ++ rest))
                  (sym number) second in
              let small : leb (unpack_length prefix) max_header_bytes ≡ true =
                subst (λ n. leb n max_header_bytes ≡ true) (sym number) fits in
              let loaded = read_back.loads-dumps (object header) encoded dumped in
              let after : (receive_header js socket).1
                  ≡ (receive_exact (unpack_length prefix) behind).1 =
                ground (arith, head, small, body.0, loaded) in
              (ground (arith, head, small, body.0, loaded), ap join after ∙ body.1)
        ]
      ]

module _ {F : Type 0} (js : JsonCodec F) {im : Images} (codec : FrameCodec im)
    (frames : HasFrames codec) where
  -- The chunks have the bytes of the configured images.
  chunks-image_bytes :
      (streams : List (String × CameraConfig)) (samples : List (String × CameraSample im))
      (offset : ℕ) (arrays : List (Json F)) (chunks : List (List ℕ))
      → encode_loop codec streams samples offset ≡ ok (arrays, chunks)
      → length (join chunks) ≡ image_bytes streams
  unfolding encode_loop
  chunks-image_bytes [] samples offset arrays chunks h = ground arith
  chunks-image_bytes ((role, stream) ∷ streams) samples offset arrays chunks h =
      elim (Option-cases (lookup role samples)) [
        | inl nothing ↦ absurd (ground (arith, nothing))
        | inr (sample, found) ↦ elim (Option-cases (codec.encode sample.image (shape_of stream))) [
          | inl nothing ↦ absurd (ground (arith, found, nothing))
          | inr ((dtype, bytes), encoded) ↦
              elim (Result-cases
                (encode_loop codec {F = F} streams samples (offset + length bytes))) [
                  | inr (x, failed) ↦ absurd (ground (arith, found, encoded, failed))
                  | inl ((descriptors, parts), others) ↦
                      let chunked : chunks ≡ bytes ∷ parts =
                        ground (arith, found, encoded, others) in
                      ap (λ l. length (join l)) chunked
                      ∙ length-append bytes (join parts)
                      ∙ ap₂ (λ a b. a + b)
                          (frames.size sample.image stream dtype bytes encoded
                            ∙ ap (λ n. n * 3) (mul_comm stream.height stream.width))
                          (chunks-image_bytes streams samples (offset + length bytes) descriptors
                            parts others)
                ]
        ]
      ]

  decode_samples-encode_samples :
      (streams : List (String × CameraConfig)) (digest : String)
      (samples : List (String × CameraSample im)) (arrays : List (Json F)) (chunks : List (List ℕ))
      → AllMade js codec frames streams samples
      → encode_loop codec streams samples 0 ≡ ok (arrays, chunks)
      → decode_samples codec js streams digest
          (samples_header digest arrays (length (join chunks)))
          (join chunks)
        ≡ ok (sent js codec frames streams samples)
  unfolding decode_samples
  decode_samples-encode_samples streams digest samples arrays chunks made h =
      let (count, decoded) =
        decode_loop-encode_loop js codec frames streams samples [] arrays chunks made h in
      ground (
        arith,
        eq_iff digest digest,
        json_items-jsons arrays,
        count,
        decoded,
        ==_refl (length (join chunks)),
        ==_refl (length streams),
      )

  validate-samples_header :
      (digest : String) (arrays : List (Json F)) (n : ℕ)
      → validate_response_header js (samples_header digest arrays n) ≡ ok true
  unfolding validate_response_header has_exactly subset contains
  validate-samples_header digest arrays n = refl

  -- The client returns exactly the samples that the server encoded, their images as arrays, and
  -- leaves what follows the response: whatever the sizes of the chunks in which the bytes arrive, if
  -- JSON and the codec give back what they were given, and the metadata is as its constructor
  -- returns it.
  pub receive_response-sent :
      HasRoundTrip js
      → (streams : List (String × CameraConfig)) (digest : String)
        (samples : List (String × CameraSample im))
      → AllMade js codec frames streams samples
      → (header : Fields F) (payload bytes rest : List ℕ) (socket : Socket)
      → encode_samples codec streams digest samples ≡ ok (header, payload)
      → send_response js header payload ≡ ok bytes
      → join socket ≡ bytes ++ rest
      → ((receive_response codec js streams digest socket).0
          ≡ ok (some (sent js codec frames streams samples)))
        × (join (receive_response codec js streams digest socket).1 ≡ rest)
  unfolding encode_samples receive_response
  receive_response-sent read_back streams digest samples made header payload bytes rest socket h
        written joined =
      elim (Result-cases (encode_loop codec {F = F} streams samples 0)) [
        | inr (x, failed) ↦ absurd (ground (arith, failed))
        | inl ((arrays, chunks), encoded) ↦
            let total = length (join chunks) in
            let headed : header ≡ samples_header digest arrays total = ground (arith, encoded) in
            let carried : payload ≡ join chunks = ground (arith, encoded) in
            let (head, behind) =
              receive_header-send_response js read_back header payload bytes rest socket written
                joined in
            let after = (receive_header js socket).1 in
            let (body, left) =
              receive_exact-ok (join chunks) rest after (behind ∙ ap (λ l. l ++ rest) carried) in
            let known : (receive_header js socket).0 ≡ ok (samples_header digest arrays total) =
              head ∙ ap (λ l. ok l) headed in
            let valid = validate-samples_header digest arrays total in
            let small : leb total (image_bytes streams) ≡ true =
              le→leb total (image_bytes streams)
                (omega (arith, chunks-image_bytes streams samples 0 arrays chunks encoded)) in
            let decoded =
              decode_samples-encode_samples streams digest samples arrays chunks made encoded in
            let last : (receive_response codec js streams digest socket).1
                ≡ (receive_exact total after).1 =
              ground (arith, known, valid, small, body, decoded) in
            (ground (arith, known, valid, small, body, decoded), ap join last ∙ left)
      ]
