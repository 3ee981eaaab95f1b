-- ===== src/Wire/Meaning.antt =====
-- The packet that the fields of an encoder stand for.
use vlai_l1_runtime.Prelude.{
  ◌≡◌, refl, ap₂, String, Bool, true, false, some, List, [], ◌∷◌, map, if◌then◌else◌,
}
use vlai_l1_runtime.Prelude.Bytes.{hex}
use vlai_l1_runtime.Contracts.{motor_names}
use vlai_l1_runtime.Feedback.{RawMotorFrame}
use vlai_l1_runtime.Wire.Packet.{FeedbackTelemetryPacket, MotorRecord, side_name, assemble}
use vlai_l1_runtime.Wire.Layout.{bit, WireMotor, WireHeader, motor_record, motor_records, AllFit}

abbrev pub frames_of : List String → List WireMotor → List RawMotorFrame
frames_of (name ∷ names) (w ∷ ws) =
    record {
      name = name;
      response_id = w.response_id;
      host_receive_monotonic_ns = w.received;
      payload_hex = hex w.payload;
      can_fd = w.can_fd;
    }
    ∷ frames_of names ws
frames_of _ _ = []

-- The packet that a header and eight motors stand for.
abbrev pub packet_of : WireHeader → List WireMotor → FeedbackTelemetryPacket
packet_of h ws = record {
  side = if h.is_right then "right" else "left";
  session_id = h.session;
  config_sha256 = h.digest;
  source_sequence = h.sequence;
  feedback = record {
    names = motor_names;
    monotonic_ns = h.assembled;
    position_rad = map (λ (w : WireMotor). w.position) ws;
    velocity_rad_s = map (λ (w : WireMotor). w.velocity) ws;
    torque_nm = map (λ (w : WireMotor). w.torque) ws;
    raw_frames = some (frames_of motor_names ws);
  };
  at_protocol_endpoint = map (λ (w : WireMotor). w.at_endpoint) ws;
}

map-motor_records :
    {A : Type 0} (f : MotorRecord → A) (g : WireMotor → A)
    → ((name : String) (w : WireMotor) → f (motor_record name w) ≡ g w)
    → (names : List String) (ws : List WireMotor) → AllFit names ws
    → map f (motor_records names ws) ≡ map g ws
unfolding motor_records
map-motor_records f g same [] [] h = refl
map-motor_records f g same [] (w ∷ ws) h = absurd h
map-motor_records f g same (name ∷ names) [] h = absurd h
map-motor_records f g same (name ∷ names) (w ∷ ws) h =
    ap₂ (λ x xs. x ∷ xs) (same name w) (map-motor_records f g same names ws h.1)

raw-motor_records :
    (names : List String) (ws : List WireMotor)
    → AllFit names ws
    → map (λ (m : MotorRecord). m.raw) (motor_records names ws) ≡ frames_of names ws
unfolding motor_records motor_record
raw-motor_records [] [] h = refl
raw-motor_records [] (w ∷ ws) h = absurd h
raw-motor_records (name ∷ names) [] h = absurd h
raw-motor_records (name ∷ names) (w ∷ ws) h =
    ap₂ (λ x xs. x ∷ xs) refl (raw-motor_records names ws h.1)

side_name-bit :
    (is_right : Bool) → side_name (bit is_right 1) ≡ (if is_right then "right" else "left")
side_name-bit true = refl
side_name-bit false = refl

-- `decode` puts the records of the motors together to that packet.
pub assemble-motor_records :
    (h : WireHeader) (ws : List WireMotor)
    → AllFit motor_names ws
    → assemble
        (side_name (bit h.is_right 1))
        h.session
        h.digest
        h.sequence
        h.assembled
        (motor_records motor_names ws)
      ≡ packet_of h ws
unfolding motor_record
assemble-motor_records h ws fs = rw (
  side_name-bit h.is_right,
  map-motor_records (λ m. m.position) (λ w. w.position) (λ name w. refl) motor_names ws fs,
  map-motor_records (λ m. m.velocity) (λ w. w.velocity) (λ name w. refl) motor_names ws fs,
  map-motor_records (λ m. m.torque) (λ w. w.torque) (λ name w. refl) motor_names ws fs,
  map-motor_records (λ m. m.at_endpoint) (λ w. w.at_endpoint) (λ name w. refl) motor_names ws fs,
  raw-motor_records motor_names ws fs,
)
