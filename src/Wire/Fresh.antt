-- ===== src/Wire/Fresh.antt =====
-- What an accepted packet says of its motors, and the order of the packets of a session.
use vlai_l1_runtime.Prelude.{
  ℕ, ◌+◌, ◌-◌, ◌≤◌, ◌<◌, ◌≡◌, Bool, true, false, inl, inr, Option, some, List, [], ◌∷◌, arith, All,
}
use vlai_l1_runtime.Prelude.Result.{ok, Result-cases}
use vlai_l1_runtime.Feedback.{RawMotorFrame}
use vlai_l1_runtime.Wire.Packet.{FeedbackTelemetryPacket, decode}
use vlai_l1_runtime.Wire.Session.{SessionConfig, FeedbackSession, frames_of, check_motor, rest_of}
use vlai_l1_runtime.Wire.Accept.{
  check_motors, times, max_of, min_of, newer, previous_frames, check_packet, accept,
}
use vlai_l1_runtime.Wire.Laws.{accept-IsAccepted}

-- Received in the session, and no longer than the maximal age before `now`.
pub record IsFresh (c : SessionConfig) (now : ℕ) (raw : RawMotorFrame) : Type 0 where
  pub in_session : c.started_ns ≤ raw.host_receive_monotonic_ns
  pub young : now ≤ raw.host_receive_monotonic_ns + c.max_age_ns

-- Each motor's frame was received after its frame before, if there is one.
abbrev pub After : RawMotorFrame → List RawMotorFrame → Type 0
After raw [] = Unit {0}
After raw (previous ∷ rest) = previous.host_receive_monotonic_ns < raw.host_receive_monotonic_ns

abbrev pub AllAfter : List RawMotorFrame → List RawMotorFrame → Type 0
AllAfter [] previous = Unit {0}
AllAfter (raw ∷ frames) previous = After raw previous × AllAfter frames (rest_of previous)

check_motor-IsFresh :
    (c : SessionConfig) (now id slave : ℕ) (status : List ℕ) (flag : Bool)
    (previous : List RawMotorFrame) (raw : RawMotorFrame)
    → check_motor c.started_ns c.max_age_ns now id slave status flag previous raw ≡ ok tt
    → IsFresh c now raw × After raw previous × (flag ≡ false)
unfolding check_motor
check_motor-IsFresh c now id slave status flag [] raw h = ground arith
check_motor-IsFresh c now id slave status flag (p ∷ previous) raw h = ground arith

check_motors-IsFresh :
    (c : SessionConfig) (now : ℕ) (ids slaves : List ℕ) (statuses : List (List ℕ))
    (flags : List Bool) (previous frames : List RawMotorFrame)
    → check_motors c.started_ns c.max_age_ns now ids slaves statuses flags previous frames ≡ ok tt
    → All (IsFresh c now) frames × AllAfter frames previous
unfolding check_motors
check_motors-IsFresh c now (id ∷ ids) (slave ∷ slaves) (status ∷ statuses) (flag ∷ flags) previous
      (raw ∷ frames) h =
    elim (Result-cases
      (check_motor c.started_ns c.max_age_ns now id slave status flag previous raw)) [
        | inl (u, passed) ↦
            let rest =
              check_motors-IsFresh c now ids slaves statuses flags (rest_of previous) frames
                (ground (arith, passed)) in
            let (fresh, after, quiet) =
              check_motor-IsFresh c now id slave status flag previous raw passed in
            ((fresh, rest.0), (after, rest.1))
        | inr (e, failed) ↦ absurd (ground (arith, failed))
      ]
check_motors-IsFresh c now _ _ _ _ previous [] h = (tt, tt)
check_motors-IsFresh c now _ _ _ _ previous (raw ∷ frames) h = absurd (ground arith)

le-max_of : (m : ℕ) (ts : List ℕ) → max_of ts ≤ m → All (λ u. u ≤ m) ts
le-max_of m [] h = tt
le-max_of m (t ∷ ts) h = (ground arith, le-max_of m ts (ground arith))

min_of-le : (m : ℕ) (ts : List ℕ) → m ≤ min_of ts → All (λ u. m ≤ u) ts
min_of-le m [] h = tt
min_of-le m (t ∷ []) h = (h, tt)
min_of-le m (t ∷ u ∷ ts) h = (ground arith, min_of-le m (u ∷ ts) (ground arith))

-- Any two of the times are no further apart than `limit`.
abbrev pub Close : ℕ → List ℕ → Type 0
Close limit ts = All (λ u. All (λ v. u ≤ v + limit) ts) ts

All-bound :
    (limit u m : ℕ) (vs : List ℕ)
    → u ≤ m + limit
    → All (λ v. m ≤ v) vs
    → All (λ v. u ≤ v + limit) vs
All-bound limit u m [] h k = tt
All-bound limit u m (v ∷ vs) h k = (omega arith, All-bound limit u m vs h k.1)

All-bounds :
    (limit top m : ℕ) (us vs : List ℕ)
    → top ≤ m + limit
    → All (λ u. u ≤ top) us
    → All (λ v. m ≤ v) vs
    → All (λ u. All (λ v. u ≤ v + limit) vs) us
All-bounds limit top m [] vs h a b = tt
All-bounds limit top m (u ∷ us) vs h a b =
    (All-bound limit u m vs (omega arith) b, All-bounds limit top m us vs h a.1 b)

spread-Close : (limit : ℕ) (ts : List ℕ) → max_of ts - min_of ts ≤ limit → Close limit ts
spread-Close limit ts h =
    All-bounds limit (max_of ts) (min_of ts) ts ts (omega arith)
      (le-max_of (max_of ts) ts (omega arith)) (min_of-le (min_of ts) ts (omega arith))

-- The session's promise about a packet that it lets pass.
pub record IsCurrent (s : FeedbackSession) (now : ℕ) (p : FeedbackTelemetryPacket) : Type 0 where
  pub started : s.config.started_ns ≤ p.feedback.monotonic_ns
  pub past : p.feedback.monotonic_ns ≤ now
  pub new : newer p s.last ≡ true
  pub fresh : All (IsFresh s.config now) (frames_of p)
  pub after : AllAfter (frames_of p) (previous_frames s.last)
  pub close : Close s.config.max_motor_skew_ns (times (frames_of p))

check_packet-IsCurrent :
    (s : FeedbackSession) (now : ℕ) (p : FeedbackTelemetryPacket)
    → check_packet s now p ≡ ok tt
    → IsCurrent s now p
unfolding check_packet
check_packet-IsCurrent s now p h =
    elim (Result-cases (
      check_motors s.config.started_ns s.config.max_age_ns now s.config.response_ids
        s.config.slave_ids s.config.allowed_statuses p.at_protocol_endpoint (previous_frames s.last)
        (frames_of p))) [
          | inl (u, passed) ↦
              let (fresh, after) =
                check_motors-IsFresh s.config now _ _ _ _ (previous_frames s.last) (frames_of p)
                  passed in
              record {
                started = ground (arith, passed);
                past = ground (arith, passed);
                new = ground (arith, passed);
                fresh = fresh;
                after = after;
                close =
                    spread-Close s.config.max_motor_skew_ns (times (frames_of p))
                      (ground (arith, passed));
              }
          | inr (e, failed) ↦ absurd (ground (arith, failed))
        ]

-- A packet that `accept` returns is the decoding of its payload, came no earlier than the session's
-- last call, was assembled within the session and not after the call, is newer than the last packet
-- in sequence and time, and has frames that were received within the session, each later than the
-- motor's last frame, none too old, and no two further apart than the skew limit; the session
-- keeps it as its last.
pub accept-IsCurrent :
    (payload : List ℕ) (now : ℕ) (s : FeedbackSession) (p : FeedbackTelemetryPacket)
    → (accept payload now s).0 ≡ ok p
    → (decode payload ≡ ok p)
      × (s.last_now_ns ≤ now)
      × IsCurrent s now p
      × ((accept payload now s).1
          ≡ record s { last_now_ns = now; last = some p; last_received_ns = some now })
accept-IsCurrent payload now s p h =
    let a = accept-IsAccepted payload now s p h in
    let c = check_packet-IsCurrent (record s { last_now_ns = now }) now p a.checked in
    (
      a.decoded,
      a.monotonic,
      record {
        started = c.started;
        past = c.past;
        new = c.new;
        fresh = c.fresh;
        after = c.after;
        close = c.close;
      },
      a.kept,
    )

-- Each packet is newer than the one before it.
abbrev pub Ascending : Option FeedbackTelemetryPacket → List FeedbackTelemetryPacket → Type 0
Ascending last [] = Unit {0}
Ascending last (p ∷ packets) = (newer p last ≡ true) × Ascending (some p) packets
