-- ===== src/Session/Acceptance.antt =====
-- `accept`: what an accepted command satisfies, and what a refused one leaves.
use vlai_l1_runtime.Prelude.{ℕ, String, Option, none, some, eq_iff, ◌≡◌, ◌≢◌, true, arith, inl, inr}
use vlai_l1_runtime.Prelude.Result.{ok, err, Result-cases}
use vlai_l1_runtime.Prelude.Value.{Floats, Value, text, Received}
use vlai_l1_runtime.Contracts.{
  CommandEnvelope, NamedJointVector, VectorFields, CommandFields, snapshot_command_envelope,
  snapshot_named_joint_vector,
}
use vlai_l1_runtime.Session.State.{Session, command, read_only, overflow, Failure}
use vlai_l1_runtime.Session.Checks.{same_lease}
use vlai_l1_runtime.Session.Commands.{validate_command}
use vlai_l1_runtime.Session.Methods.{enter, admit, accept, record_accepted}
use vlai_l1_runtime.Session.Acceptable.{IsAcceptable, validate_command-IsAcceptable}
use vlai_l1_runtime.Session.Invariant.{IsCleared, enter-kept}

-- What was read, and the time, when a command is accepted.
pub record Admission (fl : Floats) (s : Session fl.F) (c : CommandEnvelope fl.F)
    (now_ns : Value fl.F) (received : Received (VectorFields fl.F)) : Type 0 where
  pub feedback : NamedJointVector fl.F
  pub now : ℕ
  pub read : snapshot_named_joint_vector fl received ≡ ok feedback
  pub commanding : s.mode ≡ command
  pub lease : s.lease_id ≡ some c.lease_id
  pub acceptable : IsAcceptable fl s c now_ns feedback now

same_lease-text :
    (F : Type 0) (lease : String) (held : Option String)
    → same_lease {F = F} (text lease) held ≡ true
    → held ≡ some lease
unfolding same_lease
same_lease-text F lease none h = absurd (ground arith)
same_lease-text F lease (some id) h = ground (arith, eq_iff lease id)

-- The session with the numbers and times of a command and its feedback, and the time of the call.
abbrev pub with_command :
    {F : Type 0} → Session F → CommandEnvelope F → NamedJointVector F → ℕ → Session F
with_command s c f now = record s {
  previous_sequence = some c.sequence;
  previous_command_monotonic_ns = some c.monotonic_ns;
  previous_feedback_sequence = some f.metadata.source_sequence;
  previous_feedback_monotonic_ns = some f.metadata.monotonic_ns;
  last_command_accepted_ns = some now;
}

module _ (fl : Floats) where
  open fl use {F}

  admit-ok :
      (o : Received (CommandFields F)) (c : CommandEnvelope F) (now_ns : Value F)
      (feedback : Received (VectorFields F)) (s : Session F)
      → snapshot_command_envelope fl o ≡ ok c
      → (admit fl c now_ns feedback s).0 ≡ ok tt
      → (f : NamedJointVector F) × (now : ℕ) × (snapshot_named_joint_vector fl feedback ≡ ok f)
        × IsAcceptable fl s c now_ns f now
        × ((admit fl c now_ns feedback s).1 ≡ with_command s c f now)
  unfolding admit record_accepted
  admit-ok o c now_ns feedback s read h =
      elim (Result-cases (validate_command fl s c now_ns feedback)) [
        | inl ((f, now), e) ↦
            let (acceptable, fed) =
              validate_command-IsAcceptable fl s o c now_ns feedback f now read e in
            (f, now, fed, acceptable, ground (arith, e))
        | inr (x, e) ↦ ground (arith, e)
      ]

  admit-err :
      (c : CommandEnvelope F) (now_ns : Value F) (feedback : Received (VectorFields F))
      (s : Session F) (e : Failure)
      → (admit fl c now_ns feedback s).0 ≡ err e
      → e ≢ overflow
      → ((admit fl c now_ns feedback s).1.mode ≡ read_only)
        × IsCleared (admit fl c now_ns feedback s).1
  unfolding admit
  admit-err c now_ns feedback s e h other = ground arith

  enter-err :
      (lease_id now_ns : Value F) (s : Session F) (e : Failure)
      → s.mode ≡ command
      → (enter lease_id now_ns s).0 ≡ err e
      → ((enter lease_id now_ns s).1.mode ≡ read_only) × IsCleared (enter lease_id now_ns s).1
  unfolding enter
  enter-err lease_id now_ns s e m h = ground arith

  -- A call of `accept` in command mode that raises, for whatever reason but an OverflowError of
  -- `float`, leaves the session read-only and with no field of a lease.
  pub accept-fails_closed :
      (command_object : Received (CommandFields F)) (now_ns : Value F)
      (feedback : Received (VectorFields F)) (s : Session F) (e : Failure)
      → s.mode ≡ command
      → (accept fl command_object now_ns feedback s).0 ≡ err e
      → e ≢ overflow
      → ((accept fl command_object now_ns feedback s).1.mode ≡ read_only)
        × IsCleared (accept fl command_object now_ns feedback s).1
  unfolding accept
  accept-fails_closed command_object now_ns feedback s e m h other =
      elim (Result-cases (snapshot_command_envelope fl command_object)) [
        | inl (c, read) ↦ elim (Result-cases (enter (text c.lease_id) now_ns s).0) [
          | inl (u, entered) ↦ ground (
            arith,
            read,
            entered,
            enter-kept (text c.lease_id) now_ns s entered,
            admit-err c now_ns feedback s e,
          )
          | inr (x, refused) ↦
              ground (arith, read, refused, enter-err (text c.lease_id) now_ns s x m refused)
        ]
        | inr (x, failed) ↦ ground (arith, failed)
      ]

  -- A command that `accept` returns for was well formed and came under the lease in force, with the
  -- next number, a later time than the command before it, and well-formed feedback that is newer
  -- than the last and, like the command, neither from the future nor older than the inactivity
  -- limit. The first one of a lease came with feedback from after the lease, was not before that
  -- feedback, and every value of its action is within the tolerance of the one that the feedback
  -- measured under the same name. The session then keeps the numbers and the times of that command
  -- and that feedback, and the time of the call, and nothing else changes.
  pub accept-ok :
      (command_object : Received (CommandFields F)) (now_ns : Value F)
      (feedback : Received (VectorFields F)) (s : Session F)
      → (accept fl command_object now_ns feedback s).0 ≡ ok tt
      → (c : CommandEnvelope F) × (snapshot_command_envelope fl command_object ≡ ok c)
        × (a : Admission fl s c now_ns feedback) × ((accept fl command_object now_ns feedback s).1
            ≡ with_command s c a.feedback a.now)
  unfolding accept
  accept-ok command_object now_ns feedback s h =
      elim (Result-cases (snapshot_command_envelope fl command_object)) [
        | inl (c, read) ↦ elim (Result-cases (enter (text c.lease_id) now_ns s).0) [
          | inl (u, entered) ↦
              let (kept, commanding, same, beat, timed) =
                enter-kept (text c.lease_id) now_ns s entered in
              let (f, now, fed, acceptable, recorded) =
                admit-ok command_object c now_ns feedback s read
                  (ground (arith, read, entered, kept)) in
              (
                c,
                read,
                record {
                  feedback = f;
                  now = now;
                  read = fed;
                  commanding = commanding;
                  lease = same_lease-text F c.lease_id s.lease_id same;
                  acceptable = acceptable;
                },
                ground (arith, read, entered, kept, recorded),
              )
          | inr (x, refused) ↦ ground (arith, read, refused)
        ]
        | inr (x, failed) ↦ ground (arith, failed)
      ]

  enter-err_command :
      (lease_id now_ns : Value F) (s : Session F) (e : Failure)
      → (enter lease_id now_ns s).0 ≡ err e
      → (enter lease_id now_ns s).1.mode ≢ command
  unfolding enter
  enter-err_command lease_id now_ns s e h = ground arith

  admit-err_command :
      (c : CommandEnvelope F) (now_ns : Value F) (feedback : Received (VectorFields F))
      (s : Session F) (e : Failure)
      → (admit fl c now_ns feedback s).0 ≡ err e
      → (admit fl c now_ns feedback s).1.mode ≡ command
      → (admit fl c now_ns feedback s).1 ≡ s
  unfolding admit
  admit-err_command c now_ns feedback s e h m = ground arith

  -- A refused command that leaves the session in command has changed nothing.
  pub accept-err_command :
      (command_object : Received (CommandFields F)) (now_ns : Value F)
      (feedback : Received (VectorFields F)) (s : Session F) (e : Failure)
      → (accept fl command_object now_ns feedback s).0 ≡ err e
      → (accept fl command_object now_ns feedback s).1.mode ≡ command
      → (accept fl command_object now_ns feedback s).1 ≡ s
  unfolding accept
  accept-err_command command_object now_ns feedback s e h m =
      elim (Result-cases (snapshot_command_envelope fl command_object)) [
        | inl (c, read) ↦ elim (Result-cases (enter (text c.lease_id) now_ns s).0) [
          | inl (u, entered) ↦ ground (
            arith,
            read,
            entered,
            enter-kept (text c.lease_id) now_ns s entered,
            admit-err_command c now_ns feedback s e,
          )
          | inr (x, refused) ↦
              ground (arith, read, refused, enter-err_command (text c.lease_id) now_ns s x refused)
        ]
        | inr (x, failed) ↦ ground (arith, failed)
      ]
