-- ===== src/Feedback.antt =====
-- Named motor telemetry (src/vlai_l1_runtime/feedback.py): the constructors' checks.
-- The fields have their annotated types, so the tests of types have no branch; a float is a float32
-- as it stands on the wire, and a hex text is its character codes.
use vlai_l1_runtime.Prelude.{
  ℕ, String, Bool, true, false, not, ◌&&◌, ◌||◌, Option, none, some, List, [], ◌∷◌, map, length,
  all, any, ltb, leb, ◌==◌,
}
use vlai_l1_runtime.Prelude.Result.{Result, ok, ◌>>◌, guard}
use vlai_l1_runtime.Prelude.Bytes.{is_finite32}
use vlai_l1_runtime.Contracts.{motor_names, contains, names_eq}

pub data FeedbackError : Type 0 where
  bad_motor_name bad_response_id bad_receive_time bad_payload : FeedbackError
  bad_order bad_time bad_count not_finite bad_raw_frames receive_after_completion : FeedbackError

pub record RawMotorFrame : Type 0 where
  pub name : String
  pub response_id : ℕ
  pub host_receive_monotonic_ns : ℕ
  pub payload_hex : List ℕ
  pub can_fd : Bool

pub record MotorFeedback : Type 0 where
  pub names : List String
  pub monotonic_ns : ℕ
  pub position_rad : List ℕ
  pub velocity_rad_s : List ℕ
  pub torque_nm : List ℕ
  pub raw_frames : Option (List RawMotorFrame)

-- `character in "0123456789abcdef"`
abbrev pub is_hex : ℕ → Bool
is_hex c = leb 48 c && leb c 57 || leb 97 c && leb c 102

-- `RawMotorFrame.__post_init__`
unfoldable pub make_raw_motor_frame : RawMotorFrame → Result FeedbackError RawMotorFrame
unfolding contains
make_raw_motor_frame raw = do
  guard (contains raw.name motor_names) bad_motor_name
  guard (leb raw.response_id 0x7ff) bad_response_id
  guard (ltb 0 raw.host_receive_monotonic_ns) bad_receive_time
  guard (length raw.payload_hex == 16 && all is_hex raw.payload_hex) bad_payload
  ok raw

abbrev pub has_number : ℕ → List ℕ → Bool
has_number a [] = false
has_number a (x ∷ xs) = a == x || has_number a xs

-- `len(set(xs)) == len(xs)`
abbrev pub distinct : List ℕ → Bool
distinct [] = true
distinct (x ∷ xs) = not (has_number x xs) && distinct xs

abbrev eight_finite : List ℕ → Result FeedbackError (Unit {0})
eight_finite values = do
  guard (length values == 8) bad_count
  guard (all is_finite32 values) not_finite

abbrev checked_frames :
    List String → ℕ → Option (List RawMotorFrame) → Result FeedbackError (Unit {0})
checked_frames names t none = ok tt
checked_frames names t (some frames) = do
  guard
      (names_eq (map (λ (f : RawMotorFrame). f.name) frames) names
        && distinct (map (λ (f : RawMotorFrame). f.response_id) frames))
      bad_raw_frames
  guard (not (any (λ (f : RawMotorFrame). ltb t f.host_receive_monotonic_ns) frames))
      receive_after_completion

-- `MotorFeedback.__post_init__`
unfoldable pub make_motor_feedback : MotorFeedback → Result FeedbackError MotorFeedback
unfolding names_eq
make_motor_feedback f = do
  guard (names_eq f.names motor_names) bad_order
  guard (ltb 0 f.monotonic_ns) bad_time
  eight_finite f.position_rad
  eight_finite f.velocity_rad_s
  eight_finite f.torque_nm
  checked_frames f.names f.monotonic_ns f.raw_frames
  ok f
