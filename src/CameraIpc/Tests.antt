-- ===== src/CameraIpc/Tests.antt =====
-- A response with the frame of one small camera, in chunks, and the loop of the server.
use vlai_l1_runtime.Prelude.{
  ℕ, zero, suc, ◌+◌, ◌*◌, String, ◌≡◌, refl, ap, ap₂, sym, subst, ◌∙◌, Bool, true, false, ◌&&◌,
  Option, none, some, List, [], ◌∷◌, length, ◌==◌, str_eq, if◌then◌else◌, inl, inr, &&-eq-true,
  eq_iff, arith, Bool-cases,
}
use native.Mathlib.Nat.{mul_assoc}
use mathlib.Core.Option.{some-injective}
use vlai_l1_runtime.Prelude.Int.{ℤ, pos, negsuc}
use vlai_l1_runtime.Prelude.Text.{is_normalized}
use vlai_l1_runtime.Prelude.Bytes.{join}
use vlai_l1_runtime.Prelude.Result.{ok}
use vlai_l1_runtime.Contracts.{contains, lookup}
use vlai_l1_runtime.Cameras.Config.{v4l2, CameraConfig}
use vlai_l1_runtime.Cameras.Frames.{make_frame_metadata}
use vlai_l1_runtime.Collection.Images.{
  Images, Image, array, picture, no_image, no_image_class, numbers_eq, numbers_eq-eq,
  validate_camera_image,
}
use vlai_l1_runtime.Collection.Sample.{CameraSample}
use vlai_l1_runtime.CameraIpc.Json.{
  Json, null, flag, int, real, text, list, object, Jsons, end, item, Fields, no_more, field,
  JsonCodec, HasRoundTrip,
}
use vlai_l1_runtime.CameraIpc.Stream.{Socket}
use vlai_l1_runtime.CameraIpc.Frames.{FrameCodec, shape_of, dtypes, descriptor}
use vlai_l1_runtime.CameraIpc.RoundTrip.{HasFrames, AllMade, IsMade, sent}
use vlai_l1_runtime.CameraIpc.Client.{
  samples_header, encode_samples, send_response, receive_response,
}
use vlai_l1_runtime.CameraIpc.Delivered.{receive_response-sent}
use vlai_l1_runtime.CameraIpc.Server.{Poll, poll_loop}
use vlai_l1_runtime.CameraIpc.Answered.{Ends, poll_loop-Ends}

abbrev ints_eq : ℤ → ℤ → Bool
ints_eq (pos a) (pos b) = a == b
ints_eq (negsuc a) (negsuc b) = a == b
ints_eq _ _ = false

abbrev bools_eq : Bool → Bool → Bool
bools_eq true true = true
bools_eq false false = true
bools_eq _ _ = false

unfoldable mutual
  json_eq : Json ℕ → Json ℕ → Bool
  json_eq null null = true
  json_eq (flag a) (flag b) = bools_eq a b
  json_eq (int a) (int b) = ints_eq a b
  json_eq (real a) (real b) = a == b
  json_eq (text a) (text b) = str_eq a b
  json_eq (list a) (list b) = jsons_eq a b
  json_eq (object a) (object b) = fields_eq a b
  json_eq _ _ = false

  jsons_eq : Jsons ℕ → Jsons ℕ → Bool
  jsons_eq end end = true
  jsons_eq (item a as') (item b bs) = json_eq a b && jsons_eq as' bs
  jsons_eq _ _ = false

  fields_eq : Fields ℕ → Fields ℕ → Bool
  fields_eq no_more no_more = true
  fields_eq (field j a as') (field k b bs) = str_eq j k && (json_eq a b && fields_eq as' bs)
  fields_eq _ _ = false

mutual
  unfolding json_eq jsons_eq fields_eq

  json_eq-eq : (a b : Json ℕ) → json_eq a b ≡ true → a ≡ b
  json_eq-eq null b h = ground arith
  json_eq-eq (flag x) b h = ground arith
  json_eq-eq (int x) b h = ground arith
  json_eq-eq (real x) b h = ground arith
  json_eq-eq (text x) (text y) h = ap (λ s. text s) (ground (arith, eq_iff x y))
  json_eq-eq (text x) _ h = absurd (ground arith)
  json_eq-eq (list x) (list y) h = ap (λ l. list l) (jsons_eq-eq x y h)
  json_eq-eq (list x) _ h = absurd (ground arith)
  json_eq-eq (object x) (object y) h = ap (λ l. object l) (fields_eq-eq x y h)
  json_eq-eq (object x) _ h = absurd (ground arith)

  jsons_eq-eq : (a b : Jsons ℕ) → jsons_eq a b ≡ true → a ≡ b
  jsons_eq-eq end end h = refl
  jsons_eq-eq end (item b bs) h = absurd (ground arith)
  jsons_eq-eq (item a as') end h = absurd (ground arith)
  jsons_eq-eq (item a as') (item b bs) h =
      ap₂ (λ x l. item x l) (json_eq-eq a b (ground arith)) (jsons_eq-eq as' bs (ground arith))

  fields_eq-eq : (a b : Fields ℕ) → fields_eq a b ≡ true → a ≡ b
  fields_eq-eq no_more no_more h = refl
  fields_eq-eq no_more (field k b bs) h = absurd (ground arith)
  fields_eq-eq (field j a as') no_more h = absurd (ground arith)
  fields_eq-eq (field j a as') (field k b bs) h =
      let (named, others) = &&-eq-true (str_eq j k) (json_eq a b && fields_eq as' bs) h in
      let (valued, left) = &&-eq-true (json_eq a b) (fields_eq as' bs) others in
      let same : j ≡ k = (eq_iff j k).0 named in
      let value : a ≡ b = json_eq-eq a b valued in
      let rest : as' ≡ bs = fields_eq-eq as' bs left in rw (same, value, rest) refl

-- Arrays by their shape and type only.
abbrev sizes : Images
sizes = record {
  Array = List ℕ × String;
  Picture = (ℕ × ℕ) × String;
  shape = λ a. a.0;
  dtype = λ a. a.1;
  slice = λ a y bottom x right. a;
  size = λ p. p.0;
  mode = λ p. p.1;
  crop = λ p x y right bottom. p;
}

abbrev zeros : ℕ → List ℕ
zeros zero = []
zeros (suc n) = 0 ∷ zeros n

length-zeros : (n : ℕ) → length (zeros n) ≡ n
length-zeros zero = refl
length-zeros (suc n) = ap suc (length-zeros n)

abbrev product : List ℕ → ℕ
product [] = 1
product (n ∷ ns) = n * product ns

abbrev encoded : Image sizes → List ℕ → Option (String × List ℕ)
encoded (array a) shape =
    if numbers_eq a.0 shape && str_eq a.1 "uint8" then some ("|u1", zeros (product shape)) else none
encoded _ shape = none

-- A codec whose bytes are all 0.
abbrev blank : FrameCodec sizes
blank = record { encode = encoded; decode = λ bytes shape dtype. some (array (shape, "uint8")) }

blank-dtype :
    (i : Image sizes) (stream : CameraConfig) (dtype : String) (bytes : List ℕ)
    → encoded i (shape_of stream) ≡ some (dtype, bytes)
    → contains dtype dtypes ≡ true
unfolding contains
blank-dtype (array a) stream dtype bytes h = let same : dtype ≡ "|u1" = ground arith in rw same refl
blank-dtype (picture p) stream dtype bytes h = absurd (cc h)
blank-dtype no_image stream dtype bytes h = absurd (cc h)
blank-dtype no_image_class stream dtype bytes h = absurd (cc h)

blank-size :
    (i : Image sizes) (stream : CameraConfig) (dtype : String) (bytes : List ℕ)
    → encoded i (shape_of stream) ≡ some (dtype, bytes)
    → length bytes ≡ stream.height * stream.width * 3
blank-size (array a) stream dtype bytes h =
    let same : bytes ≡ zeros (product (shape_of stream)) = ground arith in
    ap length same
    ∙ length-zeros (product (shape_of stream))
    ∙ sym (mul_assoc stream.height stream.width 3)
blank-size (picture p) stream dtype bytes h = absurd (cc h)
blank-size no_image stream dtype bytes h = absurd (cc h)
blank-size no_image_class stream dtype bytes h = absurd (cc h)

blank-decoded :
    (i : Image sizes) (stream : CameraConfig) (dtype : String) (bytes : List ℕ)
    → encoded i (shape_of stream) ≡ some (dtype, bytes)
    → blank.decode bytes (shape_of stream) dtype ≡ some i
blank-decoded (array a) stream dtype bytes h =
    let (shaped, typed) =
      &&-eq-true (numbers_eq a.0 (shape_of stream)) (str_eq a.1 "uint8") (ground arith) in
    let shape : a.0 ≡ shape_of stream = numbers_eq-eq a.0 (shape_of stream) shaped in
    let dtype : a.1 ≡ "uint8" = (eq_iff a.1 "uint8").0 typed in
    ap some (ap array (ap₂ (λ x y. (x, y)) (sym shape) (sym dtype)))
blank-decoded (picture p) stream dtype bytes h = absurd (cc h)
blank-decoded no_image stream dtype bytes h = absurd (cc h)
blank-decoded no_image_class stream dtype bytes h = absurd (cc h)

blank-HasFrames : HasFrames blank
blank-HasFrames = record {
  plain = λ i. i;
  one_dtype = blank-dtype;
  size = blank-size;
  decoded = blank-decoded;
  plain_valid = λ i stream h. h;
}

abbrev camera : CameraConfig
camera = record {
  role = "wrist_left";
  required_for_collection = true;
  enabled = true;
  width = 2;
  height = 1;
  fps = 30;
  driver = v4l2;
  device_id = some "a";
  video_index = some 0;
  crop = none;
  manual_exposure = none;
}

abbrev streams : List (String × CameraConfig)
streams = ("wrist_left", camera) ∷ []

abbrev frame : ℕ → CameraSample sizes
frame n = record {
  metadata = record {
    role = "wrist_left";
    device_id = "a";
    stream_epoch = "e";
    source_sequence = n;
    monotonic_ns = 100 + n;
  };
  image = array (1 ∷ 2 ∷ 3 ∷ [], "uint8");
}

abbrev samples : List (String × CameraSample sizes)
samples = ("wrist_left", frame 4) ∷ []

abbrev header : Fields ℕ
header =
    samples_header "digest"
      (object (descriptor camera (frame 4).metadata "wrist_left" "|u1" 0 6) ∷ []) 6

-- One byte stands for the header, and no other value is written.
abbrev one_header : JsonCodec ℕ
one_header = record {
  dumps = λ v. if json_eq v (object header) then some (1 ∷ []) else none;
  loads = λ bytes. some (object header);
  equals = λ x z. false;
}

one_header-HasRoundTrip : HasRoundTrip one_header
one_header-HasRoundTrip = record {
  loads-dumps = λ v bytes h. elim (Bool-cases (json_eq v (object header))) [
    | inl same ↦ ap some (sym (json_eq-eq v (object header) same))
    | inr other ↦ absurd (ground (arith, other))
  ];
}

samples-header :
    encode_samples blank streams "digest" samples ≡ ok (header, 0 ∷ 0 ∷ 0 ∷ 0 ∷ 0 ∷ 0 ∷ [])
unfolding encode_samples validate_camera_image
samples-header = refl

abbrev sent_bytes : List ℕ
sent_bytes = 0 ∷ 0 ∷ 0 ∷ 1 ∷ 1 ∷ 0 ∷ 0 ∷ 0 ∷ 0 ∷ 0 ∷ 0 ∷ []

header-sent : send_response one_header header (0 ∷ 0 ∷ 0 ∷ 0 ∷ 0 ∷ 0 ∷ []) ≡ ok sent_bytes
unfolding send_response json_eq
header-sent = refl

abbrev socket : Socket
socket = (0 ∷ 0 ∷ []) ∷ (0 ∷ 1 ∷ 1 ∷ 0 ∷ []) ∷ [] ∷ (0 ∷ 0 ∷ 0 ∷ 0 ∷ 0 ∷ 9 ∷ []) ∷ []

frame-IsMade : (sample : CameraSample sizes) → frame 4 ≡ sample → IsMade ℕ sample.metadata
unfolding make_frame_metadata is_normalized
frame-IsMade sample h = subst (λ (s : CameraSample sizes). IsMade ℕ s.metadata) h refl

samples-AllMade : AllMade one_header blank blank-HasFrames streams samples
unfolding lookup
samples-AllMade = (λ sample h. frame-IsMade sample (some-injective (frame 4) sample h), tt)

receive_response-sent_example :
    ((receive_response blank one_header streams "digest" socket).0
      ≡ ok (some (sent one_header blank blank-HasFrames streams samples)))
    × (join (receive_response blank one_header streams "digest" socket).1 ≡ 9 ∷ [])
receive_response-sent_example =
    receive_response-sent one_header blank blank-HasFrames one_header-HasRoundTrip streams "digest"
      samples samples-AllMade header (0 ∷ 0 ∷ 0 ∷ 0 ∷ 0 ∷ 0 ∷ []) sent_bytes (9 ∷ []) socket
      samples-header header-sent refl

abbrev poll : ℕ → Bool → Poll sizes
poll n expired = record { samples = ("wrist_left", frame n) ∷ []; expired = expired }

abbrev polls : List (Poll sizes)
polls = poll 3 false ∷ poll 4 false ∷ poll 5 true ∷ []

abbrev after : List (String × ℤ)
after = ("wrist_left", pos 3) ∷ []

poll_loop-Ends_example :
    Ends ("wrist_left" ∷ []) 10 after polls (poll_loop ("wrist_left" ∷ []) 10 after polls)
poll_loop-Ends_example = poll_loop-Ends ("wrist_left" ∷ []) 10 after polls refl
