-- ===== src/Wire/Session.antt =====
-- `FeedbackSession`: its state, its construction and its methods.
use vlai_l1_runtime.Prelude.{
  ℕ, ◌-◌, ◌/◌, ◌%◌, String, Bool, true, false, not, ◌&&◌, Option, none, some, List, [], ◌∷◌, length,
  all, any, str_eq, ltb, leb, ◌==◌, if◌then◌else◌,
}
use vlai_l1_runtime.Prelude.Result.{Result, ok, err, ◌>>◌, guard}
use vlai_l1_runtime.Prelude.Exec.{Exec}
use vlai_l1_runtime.Prelude.Bytes.{fromhex}
use vlai_l1_runtime.Contracts.{sides, contains}
use vlai_l1_runtime.Feedback.{RawMotorFrame, has_number, distinct}
use vlai_l1_runtime.Wire.Packet.{
  WireError, bad_side, bad_session_id, bad_digest, bad_now, time_regressed, startup_deadline,
  silence_deadline, feedback_expired, unexpected_motor, bad_status, endpoint_value, stale_motor,
  motor_not_increasing, transport_fault, is_positive_uint64, is_identity, byte,
  FeedbackTelemetryPacket,
}

-- The constructor's arguments.
pub record SessionConfig : Type 0 where
  pub side : String
  pub session_id : List ℕ
  pub config_sha256 : List ℕ
  pub response_ids : List ℕ
  pub slave_ids : List ℕ
  pub allowed_statuses : List (List ℕ)
  pub started_ns : ℕ
  pub max_age_ns : ℕ
  pub max_motor_skew_ns : ℕ
  pub startup_timeout_ns : ℕ
  pub silence_timeout_ns : ℕ

pub record FeedbackSession : Type 0 where
  pub config : SessionConfig
  pub last_now_ns : ℕ
  pub last_received_ns : Option ℕ
  pub last : Option FeedbackTelemetryPacket
  pub fault : Option WireError

pub data SetupError : Type 0 where
  setup : WireError → SetupError
  bad_timing skew_above_age bad_response_ids bad_slave_ids bad_statuses : SetupError

abbrev in_range : ℕ → ℕ → ℕ → Bool
in_range low high n = leb low n && leb n high

abbrev eight_ids : ℕ → ℕ → List ℕ → Bool
eight_ids low high ids = length ids == 8 && all (in_range low high) ids && distinct ids

abbrev is_nibble_set : List ℕ → Bool
is_nibble_set [] = false
is_nibble_set (x ∷ xs) = all (in_range 0 15) (x ∷ xs)

-- `FeedbackSession.__init__`
unfoldable pub make_session : SessionConfig → Result SetupError FeedbackSession
unfolding contains is_identity is_positive_uint64
make_session c = do
  guard (contains c.side sides) (setup bad_side)
  guard (is_identity c.session_id 16) (setup bad_session_id)
  guard (is_identity c.config_sha256 32) (setup bad_digest)
  guard
      (is_positive_uint64 c.started_ns
        && is_positive_uint64 c.max_age_ns
        && is_positive_uint64 c.max_motor_skew_ns
        && is_positive_uint64 c.startup_timeout_ns
        && is_positive_uint64 c.silence_timeout_ns)
      bad_timing
  guard (leb c.max_motor_skew_ns c.max_age_ns) skew_above_age
  guard (eight_ids 0 0x7ff c.response_ids) bad_response_ids
  guard (eight_ids 1 15 c.slave_ids) bad_slave_ids
  guard (length c.allowed_statuses == 8 && all is_nibble_set c.allowed_statuses) bad_statuses
  ok (record {
    config = c;
    last_now_ns = c.started_ns;
    last_received_ns = none;
    last = none;
    fault = none;
  })

abbrev or_fault : Option WireError → WireError → WireError
or_fault none reason = reason
or_fault (some first) reason = first

-- `invalidate`: the first fault stays. `invalidate("")` is `transport_fault` of the text that the
-- code puts in its place.
unfoldable pub invalidate : WireError → FeedbackSession → FeedbackSession
invalidate reason s = record s { fault = some (or_fault s.fault reason); last = none }

unfoldable pub invalidate_text : String → FeedbackSession → FeedbackSession
unfolding invalidate
invalidate_text reason s =
    invalidate
      (transport_fault (if str_eq reason "" then "unspecified transport fault" else reason)) s

abbrev pub frames_of : FeedbackTelemetryPacket → List RawMotorFrame
frames_of p = elim p.feedback.raw_frames [ none ↦ [] | some frames ↦ frames ]

abbrev deadline : SessionConfig → ℕ → Option ℕ → Result WireError (Unit {0})
deadline c now none = guard (leb (now - c.started_ns) c.startup_timeout_ns) startup_deadline
deadline c now (some received) = guard (leb (now - received) c.silence_timeout_ns) silence_deadline

abbrev expiry : SessionConfig → ℕ → Option FeedbackTelemetryPacket → Result WireError (Unit {0})
expiry c now none = ok tt
expiry c now (some p) =
    guard
      (not (
        any (λ (raw : RawMotorFrame). ltb c.max_age_ns (now - raw.host_receive_monotonic_ns))
          (frames_of p)))
      feedback_expired

-- The tests of `check_deadline` behind the assignment of `_last_now_ns`. A receive time may lie
-- past `now` only where the difference, negative in the source, is below every limit.
unfoldable pub deadline_checks : FeedbackSession → ℕ → Result WireError (Unit {0})
deadline_checks s now = do deadline s.config now s.last_received_ns; expiry s.config now s.last

abbrev settled : Result WireError (Unit {0}) → Exec FeedbackSession WireError (Unit {0})
settled (ok u) s = (ok u, s)
settled (err e) s = (err e, invalidate e s)

abbrev timed_checks : ℕ → Exec FeedbackSession WireError (Unit {0})
timed_checks now s =
    if not (is_positive_uint64 now)
    then (err bad_now, invalidate bad_now s)
    else if ltb now s.last_now_ns
    then (err time_regressed, invalidate time_regressed s)
    else let s' : FeedbackSession = record s { last_now_ns = now } in
      settled (deadline_checks s' now) s'

abbrev unless_faulted :
    {A : Type 0}
    → Option WireError
    → Exec FeedbackSession WireError A
    → Exec FeedbackSession WireError A
unless_faulted none run s = run s
unless_faulted (some fault) run s = (err fault, s)

-- `_healthy` first; its exception carries the fault.
unfoldable pub check_deadline : ℕ → Exec FeedbackSession WireError (Unit {0})
unfolding is_positive_uint64 invalidate
check_deadline now s = unless_faulted s.fault (timed_checks now) s

abbrev previous_frame : List RawMotorFrame → ℕ → Bool
previous_frame [] received = true
previous_frame (previous ∷ rest) received = ltb previous.host_receive_monotonic_ns received

-- One turn of the loop over the motors: the tests on one frame, in the order of the source.
unfoldable pub check_motor :
    (started max_age now : ℕ) (response_id slave_id : ℕ) (statuses : List ℕ) (flag : Bool)
    (previous : List RawMotorFrame) (raw : RawMotorFrame)
    → Result WireError (Unit {0})
check_motor started max_age now response_id slave_id statuses flag previous raw = do
  let first : ℕ = byte 0 (fromhex raw.payload_hex)
  guard (raw.response_id == response_id && first % 16 == slave_id) (unexpected_motor raw.name)
  guard (has_number (first / 16) statuses) (bad_status raw.name)
  guard (not flag) (endpoint_value raw.name)
  guard
      (leb started raw.host_receive_monotonic_ns
        && leb (now - raw.host_receive_monotonic_ns) max_age)
      (stale_motor raw.name)
  guard (previous_frame previous raw.host_receive_monotonic_ns) (motor_not_increasing raw.name)

abbrev pub rest_of {ℓ} : {A : Type ℓ} → List A → List A
rest_of [] = []
rest_of (x ∷ xs) = xs
