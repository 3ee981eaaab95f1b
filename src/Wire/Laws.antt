-- ===== src/Wire/Laws.antt =====
-- The session is latched by its first fault, and what a packet that it returns has passed.
use vlai_l1_runtime.Prelude.{
  ℕ, ◌≤◌, ◌≡◌, refl, String, inl, inr, Option, none, some, List, [], ◌∷◌, arith,
}
use vlai_l1_runtime.Prelude.Result.{ok, err, Result-cases}
use vlai_l1_runtime.Wire.Packet.{WireError, FeedbackTelemetryPacket, decode}
use vlai_l1_runtime.Wire.Session.{FeedbackSession, invalidate_text, check_deadline, deadline_checks}
use vlai_l1_runtime.Wire.Accept.{check_packet, validate_packet, accept}

-- A call on a session.
pub data Call : Type 0 where
  checking : ℕ → Call
  accepting : List ℕ → ℕ → Call
  invalidating : String → Call

-- The session after a call, and the packet that it returned.
unfoldable pub perform : Call → FeedbackSession → FeedbackSession × Option FeedbackTelemetryPacket
perform (checking now) s = ((check_deadline now s).1, none)
perform (accepting payload now) s =
    ((accept payload now s).1, elim (accept payload now s).0 [ ok p ↦ some p | err e ↦ none ])
perform (invalidating reason) s = (invalidate_text reason s, none)

abbrev gathered :
    Option FeedbackTelemetryPacket → List FeedbackTelemetryPacket → List FeedbackTelemetryPacket
gathered none packets = packets
gathered (some p) packets = p ∷ packets

-- The packets that a list of calls returns, in order, and the session after it.
unfoldable pub run : List Call → FeedbackSession → FeedbackSession × List FeedbackTelemetryPacket
run [] s = (s, [])
run (call ∷ calls) s =
    let (s', packet) = perform call s in
    let (s'', packets) = run calls s' in (s'', gathered packet packets)

pub accept_faulted :
    (payload : List ℕ) (now : ℕ) (s : FeedbackSession) (e : WireError)
    → s.fault ≡ some e
    → accept payload now s ≡ (err e, s)
unfolding accept check_deadline
accept_faulted payload now s e h = ground (arith, h)

perform_faulted :
    (call : Call) (s : FeedbackSession) (e : WireError)
    → s.fault ≡ some e
    → ((perform call s).0.fault ≡ some e) × ((perform call s).1 ≡ none)
unfolding perform check_deadline invalidate_text
perform_faulted (accepting payload now) s e h = ground (arith, accept_faulted payload now s e h)
perform_faulted call s e h = ground (arith, h)

-- A session with a fault keeps that first fault through every sequence of calls, and no call
-- returns a packet any more.
pub run_faulted :
    (calls : List Call) (s : FeedbackSession) (e : WireError)
    → s.fault ≡ some e
    → ((run calls s).0.fault ≡ some e) × ((run calls s).1 ≡ [])
unfolding run
run_faulted [] s e h = (h, refl)
run_faulted (call ∷ calls) s e h =
    let (kept, nothing) = perform_faulted call s e h in
    ground (arith, nothing, run_faulted calls (perform call s).0 e kept)

-- A call of `accept` on a session without a fault that raises latches what it raised.
pub accept-err_fault :
    (payload : List ℕ) (now : ℕ) (s : FeedbackSession) (e : WireError)
    → s.fault ≡ none
    → (accept payload now s).0 ≡ err e
    → ((accept payload now s).1.fault ≡ some e) × ((accept payload now s).1.last ≡ none)
unfolding accept check_deadline
accept-err_fault payload now s e healthy h = ground arith

-- What a packet that `accept` returns has passed, and what the session keeps of it.
pub record IsAccepted (s : FeedbackSession) (now : ℕ) (payload : List ℕ)
    (p : FeedbackTelemetryPacket) : Type 0 where
  pub healthy : s.fault ≡ none
  pub monotonic : s.last_now_ns ≤ now
  pub decoded : decode payload ≡ ok p
  pub timely : deadline_checks (record s { last_now_ns = now }) now ≡ ok tt
  pub checked : check_packet (record s { last_now_ns = now }) now p ≡ ok tt
  pub kept :
      (accept payload now s).1
      ≡ record s { last_now_ns = now; last = some p; last_received_ns = some now }

validate_packet-ok :
    (s : FeedbackSession) (now : ℕ) (payload : List ℕ) (p : FeedbackTelemetryPacket)
    → validate_packet s now payload ≡ ok p
    → (decode payload ≡ ok p) × (check_packet s now p ≡ ok tt)
unfolding validate_packet
validate_packet-ok s now payload p h = elim (Result-cases (decode payload)) [
  | inl (q, e) ↦ ground (arith, e)
  | inr (x, e) ↦ absurd (ground (arith, e))
]

pub accept-IsAccepted :
    (payload : List ℕ) (now : ℕ) (s : FeedbackSession) (p : FeedbackTelemetryPacket)
    → (accept payload now s).0 ≡ ok p
    → IsAccepted s now payload p
unfolding accept check_deadline
accept-IsAccepted payload now s p h =
    ground (arith, validate_packet-ok (record s { last_now_ns = now }) now payload p)
