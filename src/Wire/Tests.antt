-- ===== src/Wire/Tests.antt =====
-- One packet of eight motors, accepted, and a session that a stale packet has ended.
use vlai_l1_runtime.Prelude.{
  ℕ, zero, suc, arith, ◌+◌, ◌≤◌, ◌≡◌, refl, String, true, false, none, some, List, [], ◌∷◌,
}
use vlai_l1_runtime.Prelude.Result.{ok, err}
use vlai_l1_runtime.Contracts.{motor_names}
use vlai_l1_runtime.Feedback.{make_raw_motor_frame, make_motor_feedback}
use vlai_l1_runtime.Wire.Packet.{
  time_regressed, transport_fault, make_packet, decode_fields, decode_body, read_motors, read_motor,
  motor_of, decode, checked_packet,
}
use vlai_l1_runtime.Wire.Session.{
  SessionConfig, FeedbackSession, check_motor, check_deadline, deadline_checks,
}
use vlai_l1_runtime.Wire.Accept.{check_motors, check_packet, validate_packet, accept}
use vlai_l1_runtime.Wire.Laws.{Call, checking, accepting, run, run_faulted, accept-err_fault}
use vlai_l1_runtime.Wire.Fresh.{IsCurrent, accept-IsCurrent}
use vlai_l1_runtime.Wire.Layout.{
  WireMotor, WireHeader, HeaderFits, Fits, AllFit, encode, motor_record, motor_records,
}
use vlai_l1_runtime.Wire.Meaning.{packet_of}
use vlai_l1_runtime.Wire.RoundTrip.{decode-encode}

abbrev ones : ℕ → List ℕ
ones zero = []
ones (suc n) = 1 ∷ ones n

abbrev config : SessionConfig
config = record {
  side = "left";
  session_id = ones 16;
  config_sha256 = ones 32;
  response_ids = 17 ∷ 18 ∷ 19 ∷ 20 ∷ 21 ∷ 22 ∷ 23 ∷ 24 ∷ [];
  slave_ids = 1 ∷ 2 ∷ 3 ∷ 4 ∷ 5 ∷ 6 ∷ 7 ∷ 8 ∷ [];
  allowed_statuses =
      (1 ∷ []) ∷ (1 ∷ []) ∷ (1 ∷ []) ∷ (1 ∷ []) ∷ (1 ∷ []) ∷ (1 ∷ []) ∷ (1 ∷ []) ∷ (1 ∷ []) ∷ [];
  started_ns = 500;
  max_age_ns = 300;
  max_motor_skew_ns = 100;
  startup_timeout_ns = 1000;
  silence_timeout_ns = 200;
}

abbrev new_session : FeedbackSession
new_session = record {
  config = config;
  last_now_ns = 500;
  last_received_ns = none;
  last = none;
  fault = none;
}

-- Motor `n`, at rest, in status 1.
abbrev motor : ℕ → WireMotor
motor n = record {
  response_id = 16 + n;
  can_fd = true;
  at_endpoint = false;
  received = 600 + n;
  payload = (16 + n) ∷ 128 ∷ 0 ∷ 128 ∷ 8 ∷ 0 ∷ 40 ∷ 40 ∷ [];
  position = 0;
  velocity = 0;
  torque = 0x3f800000;
}

abbrev motors : List WireMotor
motors = motor 1 ∷ motor 2 ∷ motor 3 ∷ motor 4 ∷ motor 5 ∷ motor 6 ∷ motor 7 ∷ motor 8 ∷ []

abbrev header : WireHeader
header = record {
  is_right = false;
  session = ones 16;
  digest = ones 32;
  sequence = 1;
  assembled = 650;
}

abbrev payload : List ℕ
unfolding encode
payload = encode header motors

header-HeaderFits : HeaderFits header
header-HeaderFits = record {
  session = refl;
  digest = refl;
  sequence = omega arith;
  assembled = omega arith;
}

motor-Fits :
    (name : String) (n : ℕ)
    → n ≤ 8
    → make_raw_motor_frame (motor_record name (motor n)).raw ≡ ok (motor_record name (motor n)).raw
    → Fits name (motor n)
motor-Fits name n small frame = record {
  response_id = omega arith;
  received = omega arith;
  payload = refl;
  position = omega arith;
  velocity = omega arith;
  torque = omega arith;
  frame = frame;
}

motors-AllFit : AllFit motor_names motors
unfolding make_raw_motor_frame motor_record
motors-AllFit = (
  motor-Fits "joint_1" 1 (omega arith) refl,
  (
    motor-Fits "joint_2" 2 (omega arith) refl,
    (
      motor-Fits "joint_3" 3 (omega arith) refl,
      (
        motor-Fits "joint_4" 4 (omega arith) refl,
        (
          motor-Fits "joint_5" 5 (omega arith) refl,
          (
            motor-Fits "joint_6" 6 (omega arith) refl,
            (
              motor-Fits "joint_7" 7 (omega arith) refl,
              (motor-Fits "gripper" 8 (omega arith) refl, tt),
            ),
          ),
        ),
      ),
    ),
  ),
)

decode-encode_example : decode (encode header motors) ≡ checked_packet (packet_of header motors)
decode-encode_example = decode-encode header motors header-HeaderFits motors-AllFit

packet-accepted : (accept (encode header motors) 700 new_session).0 ≡ ok (packet_of header motors)
unfolding accept validate_packet check_packet check_motors check_motor check_deadline decode encode
    deadline_checks decode_fields decode_body read_motors read_motor motor_of make_raw_motor_frame
    make_motor_feedback make_packet motor_records
packet-accepted = refl

accept-IsCurrent_example :
    (decode (encode header motors) ≡ ok (packet_of header motors))
    × (500 ≤ 700)
    × IsCurrent new_session 700 (packet_of header motors)
    × ((accept (encode header motors) 700 new_session).1 ≡ record new_session {
      last_now_ns = 700;
      last = some (packet_of header motors);
      last_received_ns = some 700;
    })
accept-IsCurrent_example =
    accept-IsCurrent (encode header motors) 700 new_session (packet_of header motors)
      packet-accepted

abbrev calls : List Call
calls =
    accepting (encode header motors) 700 ∷ checking 800 ∷ accepting (encode header motors) 810 ∷ []

early-refused : (accept (encode header motors) 400 new_session).0 ≡ err time_regressed
unfolding accept check_deadline
early-refused = refl

accept-err_fault_example :
    ((accept (encode header motors) 400 new_session).1.fault ≡ some time_regressed)
    × ((accept (encode header motors) 400 new_session).1.last ≡ none)
accept-err_fault_example =
    accept-err_fault (encode header motors) 400 new_session time_regressed refl early-refused

abbrev ended : FeedbackSession
ended = record new_session { fault = some (transport_fault "socket closed") }

run_faulted_example :
    ((run calls ended).0.fault ≡ some (transport_fault "socket closed"))
    × ((run calls ended).1 ≡ [])
run_faulted_example = run_faulted calls ended (transport_fault "socket closed") refl
