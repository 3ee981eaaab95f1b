-- ===== src/Wire/Packet.antt =====
-- `FeedbackTelemetryPacket`: its checks and its decoder.
use vlai_l1_runtime.Prelude.{
  ℕ, zero, suc, ◌+◌, ◌-◌, ◌*◌, ◌/◌, ◌%◌, ◌^◌, String, Bool, true, false, not, ◌&&◌, ◌||◌, Option,
  none, some, List, [], ◌∷◌, map, length, drop, any, ltb, leb, ◌==◌, if◌then◌else◌,
}
use vlai_l1_runtime.Prelude.Result.{Result, ok, err, ◌>>=◌, ◌>>◌, guard}
use vlai_l1_runtime.Prelude.Bytes.{little, split, hex, fromhex}
use vlai_l1_runtime.Contracts.{motor_names, sides, contains}
use vlai_l1_runtime.Feedback.{
  FeedbackError, RawMotorFrame, MotorFeedback, make_raw_motor_frame, make_motor_feedback,
}

-- Every `raise ValueError(...)` of a packet or a session; the session keeps it as its fault.
pub data WireError : Type 0 where
  feedback_error : FeedbackError → WireError
  bad_size bad_header bad_flags : WireError
  bad_side bad_session_id bad_digest bad_sequence no_raw_frames bad_assembly : WireError
  bad_endpoint_flags : WireError
  endpoint_flag_differs : String → WireError
  bad_now time_regressed startup_deadline silence_deadline feedback_expired : WireError
  unexpected_identity assembly_outside not_increasing : WireError
  unexpected_motor bad_status endpoint_value stale_motor motor_not_increasing : String → WireError
  skew_exceeded : WireError
  transport_fault : String → WireError

abbrev pub lift_feedback {ℓ} : {A : Type ℓ} → Result FeedbackError A → Result WireError A
lift_feedback (ok a) = ok a
lift_feedback (err e) = err (feedback_error e)

abbrev pub uint64_max : ℕ
uint64_max = 2 ^ 64 - 1

-- `_positive_integer`
unfoldable pub is_positive_uint64 : ℕ → Bool
is_positive_uint64 n = ltb 0 n && leb n uint64_max

-- `_identity`
unfoldable pub is_identity : List ℕ → ℕ → Bool
is_identity value size = length value == size && any (λ b. not (b == 0)) value

-- `payload[i]`, 0 out of range
abbrev pub byte : ℕ → List ℕ → ℕ
byte i [] = 0
byte zero (b ∷ bs) = b
byte (suc i) (b ∷ bs) = byte i bs

-- The three integers of a motor's payload; `|` joins bits that do not meet.
abbrev pub raw_position : List ℕ → ℕ
raw_position b = byte 1 b * 256 + byte 2 b

abbrev pub raw_velocity : List ℕ → ℕ
raw_velocity b = byte 3 b * 16 + byte 4 b / 16

abbrev pub raw_torque : List ℕ → ℕ
raw_torque b = byte 4 b % 16 * 256 + byte 5 b

-- `_endpoint`
unfoldable pub endpoint : List ℕ → Bool
endpoint b =
    raw_position b == 0
    || raw_position b == 65535
    || raw_velocity b == 0
    || raw_velocity b == 4095
    || raw_torque b == 0
    || raw_torque b == 4095

pub record FeedbackTelemetryPacket : Type 0 where
  pub side : String
  pub session_id : List ℕ
  pub config_sha256 : List ℕ
  pub source_sequence : ℕ
  pub feedback : MotorFeedback
  pub at_protocol_endpoint : List Bool

abbrev pub bool_eq : Bool → Bool → Bool
bool_eq true b = b
bool_eq false b = not b

-- The last loop of `__post_init__`; the lengths agree there.
unfoldable pub check_endpoints : List RawMotorFrame → List Bool → Result WireError (Unit {0})
unfolding endpoint
check_endpoints (raw ∷ frames) (flag ∷ flags) = do
  guard (bool_eq flag (endpoint (fromhex raw.payload_hex))) (endpoint_flag_differs raw.name)
  check_endpoints frames flags
check_endpoints _ _ = ok tt

abbrev require_frames : Option (List RawMotorFrame) → Result WireError (List RawMotorFrame)
require_frames none = err no_raw_frames
require_frames (some frames) = ok frames

-- `FeedbackTelemetryPacket.__post_init__`
unfoldable pub make_packet : FeedbackTelemetryPacket → Result WireError FeedbackTelemetryPacket
unfolding contains is_identity is_positive_uint64 check_endpoints
make_packet p = do
  guard (contains p.side sides) bad_side
  guard (is_identity p.session_id 16) bad_session_id
  guard (is_identity p.config_sha256 32) bad_digest
  guard (is_positive_uint64 p.source_sequence) bad_sequence
  frames ← require_frames p.feedback.raw_frames
  guard (is_positive_uint64 p.feedback.monotonic_ns) bad_assembly
  guard (length p.at_protocol_endpoint == 8) bad_endpoint_flags
  check_endpoints frames p.at_protocol_endpoint
  ok p

-- The fields of one motor's record in the packet.
pub record MotorRecord : Type 0 where
  pub raw : RawMotorFrame
  pub position : ℕ
  pub velocity : ℕ
  pub torque : ℕ
  pub at_endpoint : Bool

abbrev pub motor_sizes : List ℕ
motor_sizes = 2 ∷ 1 ∷ 1 ∷ 8 ∷ 8 ∷ 4 ∷ 4 ∷ 4 ∷ []

abbrev pub header_sizes : List ℕ
header_sizes = 4 ∷ 2 ∷ 1 ∷ 1 ∷ 16 ∷ 32 ∷ 8 ∷ 8 ∷ []

abbrev pub packet_size : ℕ
packet_size = 328

-- One turn of the loop of `decode`, on the unpacked values.
unfoldable pub motor_of :
    String
    → (response_id flags reserved received : ℕ) → List ℕ
    → (q dq tau : ℕ) → Result WireError MotorRecord
motor_of name response_id flags reserved received raw q dq tau =
    if not (flags / 4 == 0) || not (reserved == 0) then err bad_flags else do
      frame ← lift_feedback (
          make_raw_motor_frame (record {
            name = name;
            response_id = response_id;
            host_receive_monotonic_ns = received;
            payload_hex = hex raw;
            can_fd = flags % 2 == 1;
          }))
      ok (record {
        raw = frame;
        position = q;
        velocity = dq;
        torque = tau;
        at_endpoint = flags / 2 % 2 == 1;
      })

-- The fields are those of `motor_sizes`.
unfoldable pub read_motor : String → List (List ℕ) → Result WireError MotorRecord
read_motor name (response_id ∷ flags ∷ reserved ∷ received ∷ raw ∷ q ∷ dq ∷ tau ∷ []) =
    motor_of name (little response_id) (little flags) (little reserved) (little received) raw
      (little q) (little dq) (little tau)
read_motor name _ = err bad_size

unfoldable pub read_motors : List String → List ℕ → Result WireError (List MotorRecord)
read_motors [] bytes = ok []
read_motors (name ∷ names) bytes = do
  motor ← read_motor name (split motor_sizes bytes)
  motors ← read_motors names (drop 32 bytes)
  ok (motor ∷ motors)

-- b"VL1T"
abbrev pub is_magic : List ℕ → Bool
is_magic (a ∷ b ∷ c ∷ d ∷ []) = a == b'V' && b == b'L' && c == b'1' && d == b'T'
is_magic _ = false

abbrev pub side_name : ℕ → String
side_name code = if code == 0 then "left" else "right"

-- The packet that `decode` constructs.
abbrev pub assemble :
    (side : String) (session digest : List ℕ) (sequence assembled : ℕ)
    → List MotorRecord
    → FeedbackTelemetryPacket
assemble side session digest sequence assembled motors = record {
  side = side;
  session_id = session;
  config_sha256 = digest;
  source_sequence = sequence;
  feedback = record {
    names = motor_names;
    monotonic_ns = assembled;
    position_rad = map (λ (m : MotorRecord). m.position) motors;
    velocity_rad_s = map (λ (m : MotorRecord). m.velocity) motors;
    torque_nm = map (λ (m : MotorRecord). m.torque) motors;
    raw_frames = some (map (λ (m : MotorRecord). m.raw) motors);
  };
  at_protocol_endpoint = map (λ (m : MotorRecord). m.at_endpoint) motors;
}

abbrev pub checked_packet : FeedbackTelemetryPacket → Result WireError FeedbackTelemetryPacket
checked_packet p = do feedback ← lift_feedback (make_motor_feedback p.feedback); make_packet p

-- The part of `decode` behind the header's checks.
unfoldable pub decode_body :
    ℕ
    → (session digest : List ℕ) → (sequence assembled : ℕ) → List ℕ
    → Result WireError FeedbackTelemetryPacket
decode_body side session digest sequence assembled body = do
  motors ← read_motors motor_names body
  checked_packet (assemble (side_name side) session digest sequence assembled motors)

-- The header's fields are those of `header_sizes`.
unfoldable pub decode_fields : List (List ℕ) → List ℕ → Result WireError FeedbackTelemetryPacket
decode_fields (magic ∷ version ∷ side ∷ reserved ∷ session ∷ digest ∷ sequence ∷ assembled ∷ [])
      body =
    if not (is_magic magic)
      || not (little version == 1)
      || not (little reserved == 0)
      || not (little side == 0 || little side == 1)
    then err bad_header
    else decode_body (little side) session digest (little sequence) (little assembled) body
decode_fields _ body = err bad_size

-- `FeedbackTelemetryPacket.decode`
unfoldable pub decode : List ℕ → Result WireError FeedbackTelemetryPacket
decode payload =
    if not (length payload == packet_size)
    then err bad_size
    else decode_fields (split header_sizes payload) (drop 72 payload)
