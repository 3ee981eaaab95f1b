-- ===== src/Session/History.antt =====
-- The numbers of the commands that a lease has accepted.
use vlai_l1_runtime.Prelude.{ℕ, zero, suc, ◌≡◌, List, [], ◌∷◌, inl, inr, arith, length}
use vlai_l1_runtime.Prelude.Result.{Result, ok, err, Result-cases}
use vlai_l1_runtime.Prelude.Value.{Floats, Value, Received}
use vlai_l1_runtime.Contracts.{
  Raised, CommandEnvelope, VectorFields, CommandFields, snapshot_command_envelope,
  expected_sequence,
}
use vlai_l1_runtime.Session.State.{Session, Policy, command, initialize}
use vlai_l1_runtime.Session.Checks.{check_timeouts}
use vlai_l1_runtime.Session.Methods.{
  connect_read_only, disconnect, heartbeat, release, acquire_command, enter, accept,
  record_accepted,
}
use vlai_l1_runtime.Session.Acceptance.{accept-ok, accept-err_command}
use vlai_l1_runtime.Session.Events.{Call, acquiring, accepting, perform, run}

-- n - 1, ..., 1, 0
abbrev pub down_from : ℕ → List ℕ
down_from zero = []
down_from (suc n) = n ∷ down_from n

abbrev sequence_of : {F : Type 0} → Result Raised (CommandEnvelope F) → List ℕ → List ℕ
sequence_of (ok c) log = c.sequence ∷ log
sequence_of (err e) log = log

module _ (fl : Floats) where
  open fl use {F}

  -- The numbers of the commands accepted since the last acquisition, newest first.
  unfoldable pub logged : Call F → Session F → List ℕ → List ℕ
  logged (acquiring lease_id measured now_ns) s log =
      elim (acquire_command fl lease_id measured now_ns s).0 [ ok u ↦ [] | err e ↦ log ]
  logged (accepting c now_ns feedback) s log = elim (accept fl c now_ns feedback s).0 [
    | ok u ↦ sequence_of (snapshot_command_envelope fl c) log
    | err e ↦ log
  ]
  logged _ s log = log

  unfoldable pub history : List (Call F) → Session F → List ℕ → List ℕ
  unfolding logged
  history [] s log = log
  history (call ∷ calls) s log = history calls (perform fl call s) (logged call s log)

  -- The log counts down to 0, and the session waits for the number that follows.
  pub record InOrder (s : Session F) (log : List ℕ) : Type 0 where
    pub counted : log ≡ down_from (length log)
    pub awaited : expected_sequence s.previous_sequence ≡ length log

  abbrev Tracks : Session F → List ℕ → Type 0
  Tracks s log = s.mode ≡ command → InOrder s log

  accepting-Tracks :
      (c : Received (CommandFields F)) (now_ns : Value F) (feedback : Received (VectorFields F))
      (s : Session F) (log : List ℕ)
      → Tracks s log
      → Tracks
          (perform fl (accepting c now_ns feedback) s)
          (logged (accepting c now_ns feedback) s log)
  unfolding perform logged record_accepted
  accepting-Tracks c now_ns feedback s log h m =
      elim (Result-cases (accept fl c now_ns feedback s).0) [
        | inl (u, accepted) ↦
            let (c', read, a, recorded) = accept-ok fl c now_ns feedback s accepted in
            ground (arith, accepted, read, recorded, a.commanding, a.acceptable)
        | inr (e, refused) ↦
            ground (arith, refused, accept-err_command fl c now_ns feedback s e refused m)
      ]

  logged-Tracks :
      (call : Call F) (s : Session F) (log : List ℕ)
      → Tracks s log
      → Tracks (perform fl call s) (logged call s log)
  unfolding perform logged connect_read_only disconnect acquire_command heartbeat release
      check_timeouts enter
  logged-Tracks (accepting c now_ns feedback) s log h = accepting-Tracks c now_ns feedback s log h
  logged-Tracks _ s log h = ground arith

  run-Tracks :
      (calls : List (Call F)) (s : Session F) (log : List ℕ)
      → Tracks s log
      → Tracks (run fl calls s) (history calls s log)
  unfolding run history
  run-Tracks [] s log h = h
  run-Tracks (call ∷ calls) s log h =
      run-Tracks calls (perform fl call s) (logged call s log) (logged-Tracks call s log h)

  -- Whatever calls a new session has seen, if it is in command, then the commands accepted since
  -- its lease was acquired bear the numbers 0, 1, 2, ... without gap or repetition, and the number
  -- that it waits for is how many they are.
  pub history-InOrder :
      (p : Policy F) (calls : List (Call F))
      → (run fl calls (initialize p)).mode ≡ command
      → InOrder (run fl calls (initialize p)) (history calls (initialize p) [])
  unfolding initialize
  history-InOrder p calls = run-Tracks calls (initialize p) [] (λ m. cc)
