-- ===== src/Wire/Accept.antt =====
-- `FeedbackSession.accept`.
use vlai_l1_runtime.Prelude.{
  ℕ, ◌-◌, Bool, true, ◌&&◌, Option, none, some, List, [], ◌∷◌, str_eq, ltb, leb, if◌then◌else◌,
}
use vlai_l1_runtime.Prelude.Result.{Result, ok, err, ◌>>=◌, ◌>>◌, guard}
use vlai_l1_runtime.Prelude.Exec.{Exec}
use vlai_l1_runtime.Prelude.Exec
use vlai_l1_runtime.Prelude.Text.{codes_eq}
use vlai_l1_runtime.Feedback.{RawMotorFrame}
use vlai_l1_runtime.Wire.Packet.{
  WireError, unexpected_identity, assembly_outside, not_increasing, unexpected_motor, skew_exceeded,
  FeedbackTelemetryPacket, decode,
}
use vlai_l1_runtime.Wire.Session.{
  SessionConfig, FeedbackSession, invalidate, frames_of, check_motor, rest_of, check_deadline,
}

-- The loop over the motors. All lists have eight elements, and `previous` eight or none; a missing
-- element would be an IndexError.
unfoldable pub check_motors :
    (started max_age now : ℕ) (response_ids slave_ids : List ℕ) (statuses : List (List ℕ))
    (flags : List Bool) (previous frames : List RawMotorFrame)
    → Result WireError (Unit {0})
check_motors started max_age now (id ∷ ids) (slave ∷ slaves) (status ∷ statuses) (flag ∷ flags)
      previous (raw ∷ frames) =
    do
      check_motor started max_age now id slave status flag previous raw
      check_motors started max_age now ids slaves statuses flags (rest_of previous) frames
check_motors started max_age now ids slaves statuses flags previous [] = ok tt
check_motors started max_age now ids slaves statuses flags previous (raw ∷ frames) =
    err (unexpected_motor raw.name)

abbrev pub times : List RawMotorFrame → List ℕ
times [] = []
times (raw ∷ frames) = raw.host_receive_monotonic_ns ∷ times frames

-- `max(timestamps)` and `min(timestamps)` of a list that is not empty
abbrev pub max_of : List ℕ → ℕ
max_of [] = 0
max_of (t ∷ ts) = if ltb (max_of ts) t then t else max_of ts

abbrev pub min_of : List ℕ → ℕ
min_of [] = 0
min_of (t ∷ []) = t
min_of (t ∷ u ∷ ts) = if ltb t (min_of (u ∷ ts)) then t else min_of (u ∷ ts)

abbrev pub newer : FeedbackTelemetryPacket → Option FeedbackTelemetryPacket → Bool
newer p none = true
newer p (some last) =
    ltb last.source_sequence p.source_sequence
    && ltb last.feedback.monotonic_ns p.feedback.monotonic_ns

abbrev pub previous_frames : Option FeedbackTelemetryPacket → List RawMotorFrame
previous_frames none = []
previous_frames (some last) = frames_of last

-- The tests of `accept` on a decoded packet.
unfoldable pub check_packet :
    FeedbackSession → ℕ → FeedbackTelemetryPacket → Result WireError (Unit {0})
check_packet s now p = do
  let c : SessionConfig = s.config
  guard
      (str_eq p.side c.side
        && codes_eq p.session_id c.session_id
        && codes_eq p.config_sha256 c.config_sha256)
      unexpected_identity
  guard (leb c.started_ns p.feedback.monotonic_ns && leb p.feedback.monotonic_ns now)
      assembly_outside
  guard (newer p s.last) not_increasing
  check_motors c.started_ns c.max_age_ns now c.response_ids c.slave_ids c.allowed_statuses
      p.at_protocol_endpoint (previous_frames s.last) (frames_of p)
  guard (leb (max_of (times (frames_of p)) - min_of (times (frames_of p))) c.max_motor_skew_ns)
      skew_exceeded

unfoldable pub validate_packet :
    FeedbackSession → ℕ → List ℕ → Result WireError FeedbackTelemetryPacket
validate_packet s now payload = do p ← decode payload; check_packet s now p; ok p

abbrev pub received :
    ℕ
    → Result WireError FeedbackTelemetryPacket
    → Exec FeedbackSession WireError FeedbackTelemetryPacket
received now (ok p) s = (ok p, record s { last = some p; last_received_ns = some now })
received now (err e) s = (err e, invalidate e s)

unfoldable pub accept : List ℕ → ℕ → Exec FeedbackSession WireError FeedbackTelemetryPacket
unfolding invalidate
accept payload now =
    Exec.◌>>=◌ (check_deadline now) λ u s. received now (validate_packet s now payload) s
