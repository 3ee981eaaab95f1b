-- ===== src/Wire/Layout.antt =====
-- The packet layout, as the fields of an encoder.
use vlai_l1_runtime.Prelude.{
  ℕ, ◌+◌, ◌^◌, ◌<◌, ◌≡◌, String, Bool, List, [], ◌∷◌, ◌++◌, length, if◌then◌else◌,
}
use vlai_l1_runtime.Prelude.Result.{ok}
use vlai_l1_runtime.Prelude.Bytes.{to_little, join, hex}
use vlai_l1_runtime.Feedback.{make_raw_motor_frame}
use vlai_l1_runtime.Wire.Packet.{MotorRecord}

-- What a sender has of one motor.
pub record WireMotor : Type 0 where
  pub response_id : ℕ
  pub can_fd : Bool
  pub at_endpoint : Bool
  pub received : ℕ
  pub payload : List ℕ
  pub position : ℕ
  pub velocity : ℕ
  pub torque : ℕ

abbrev pub bit : Bool → ℕ → ℕ
bit b n = if b then n else 0

-- `<HBBQ8sfff`
abbrev pub motor_fields : WireMotor → List (List ℕ)
motor_fields w =
    to_little 2 w.response_id
    ∷ ((bit w.can_fd 1 + bit w.at_endpoint 2) ∷ [])
    ∷ (0 ∷ [])
    ∷ to_little 8 w.received
    ∷ w.payload
    ∷ to_little 4 w.position
    ∷ to_little 4 w.velocity
    ∷ to_little 4 w.torque
    ∷ []

unfoldable pub encode_motors : List WireMotor → List ℕ
encode_motors [] = []
encode_motors (w ∷ ws) = join (motor_fields w) ++ encode_motors ws

pub record WireHeader : Type 0 where
  pub is_right : Bool
  pub session : List ℕ
  pub digest : List ℕ
  pub sequence : ℕ
  pub assembled : ℕ

-- `<4sHBB16s32sQQ`
abbrev pub header_fields : WireHeader → List (List ℕ)
header_fields h =
    (b'V' ∷ b'L' ∷ b'1' ∷ b'T' ∷ [])
    ∷ to_little 2 1
    ∷ (bit h.is_right 1 ∷ [])
    ∷ (0 ∷ [])
    ∷ h.session
    ∷ h.digest
    ∷ to_little 8 h.sequence
    ∷ to_little 8 h.assembled
    ∷ []

unfoldable pub encode : WireHeader → List WireMotor → List ℕ
unfolding encode_motors
encode h ws = join (header_fields h) ++ encode_motors ws

-- The record that a motor's fields stand for.
unfoldable pub motor_record : String → WireMotor → MotorRecord
motor_record name w = record {
  raw = record {
    name = name;
    response_id = w.response_id;
    host_receive_monotonic_ns = w.received;
    payload_hex = hex w.payload;
    can_fd = w.can_fd;
  };
  position = w.position;
  velocity = w.velocity;
  torque = w.torque;
  at_endpoint = w.at_endpoint;
}

unfoldable pub motor_records : List String → List WireMotor → List MotorRecord
unfolding motor_record
motor_records (name ∷ names) (w ∷ ws) = motor_record name w ∷ motor_records names ws
motor_records _ _ = []

-- Every number has the width of its field, and the frame passes its constructor.
pub record Fits (name : String) (w : WireMotor) : Type 0 where
  pub response_id : w.response_id < 256 ^ 2
  pub received : w.received < 256 ^ 8
  pub payload : length w.payload ≡ 8
  pub position : w.position < 256 ^ 4
  pub velocity : w.velocity < 256 ^ 4
  pub torque : w.torque < 256 ^ 4
  pub frame : make_raw_motor_frame (motor_record name w).raw ≡ ok (motor_record name w).raw

abbrev pub AllFit : List String → List WireMotor → Type 0
AllFit [] [] = Unit {0}
AllFit (name ∷ names) (w ∷ ws) = Fits name w × AllFit names ws
AllFit _ _ = ⊥

pub record HeaderFits (h : WireHeader) : Type 0 where
  pub session : length h.session ≡ 16
  pub digest : length h.digest ≡ 32
  pub sequence : h.sequence < 256 ^ 8
  pub assembled : h.assembled < 256 ^ 8
