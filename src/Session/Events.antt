-- ===== src/Session/Events.antt =====
-- Clients of a session: any sequence of calls, each of which may raise.
use vlai_l1_runtime.Prelude.{
  ◌≡◌, ◌≢◌, refl, ◌∙◌, Bool, true, false, List, [], ◌∷◌, inl, inr, not, arith, all,
}
use vlai_l1_runtime.Prelude.Result.{Result-cases}
use vlai_l1_runtime.Prelude.Value.{Floats, Value, Received}
use vlai_l1_runtime.Contracts.{VectorFields, CommandFields, snapshot_command_envelope}
use vlai_l1_runtime.Session.State.{Session, Policy, command, initialize}
use vlai_l1_runtime.Session.Checks.{check_timeouts}
use vlai_l1_runtime.Session.Methods.{
  connect_read_only, disconnect, heartbeat, release, acquire_command, enter, admit, accept,
}
use vlai_l1_runtime.Session.Invariant.{
  IsHeld, IsWellFormed, initialize-IsWellFormed, connect_read_only-IsWellFormed,
  disconnect-IsWellFormed, check_timeouts-IsWellFormed, release-IsWellFormed,
  heartbeat-IsWellFormed, acquire_command-IsWellFormed, accept-IsWellFormed,
}

-- A call of a public method, with its arguments.
pub data Call (F : Type 0) : Type 0 where
  connecting : Value F → Call F
  disconnecting : Call F
  acquiring : Value F → Received (VectorFields F) → Value F → Call F
  beating : Value F → Value F → Call F
  accepting : Received (CommandFields F) → Value F → Received (VectorFields F) → Call F
  releasing : Value F → Value F → Call F
  checking : Value F → Call F

abbrev pub is_acquiring : {F : Type 0} → Call F → Bool
is_acquiring (acquiring _ _ _) = true
is_acquiring _ = false

module _ (fl : Floats) where
  open fl use {F}

  -- The client catches what the call raises; what it wrote before stays.
  unfoldable pub perform : Call F → Session F → Session F
  perform (connecting now_ns) s = (connect_read_only now_ns s).1
  perform disconnecting s = disconnect s
  perform (acquiring lease_id measured now_ns) s = (acquire_command fl lease_id measured now_ns s).1
  perform (beating lease_id now_ns) s = (heartbeat lease_id now_ns s).1
  perform (accepting c now_ns feedback) s = (accept fl c now_ns feedback s).1
  perform (releasing lease_id reason) s = (release lease_id reason s).1
  perform (checking now_ns) s = (check_timeouts now_ns s).1

  unfoldable pub run : List (Call F) → Session F → Session F
  unfolding perform
  run [] s = s
  run (call ∷ calls) s = run calls (perform call s)

  perform-IsWellFormed :
      (call : Call F) (s : Session F) → IsWellFormed s → IsWellFormed (perform call s)
  unfolding perform
  perform-IsWellFormed (connecting now_ns) s h = connect_read_only-IsWellFormed now_ns h
  perform-IsWellFormed disconnecting s h = disconnect-IsWellFormed s
  perform-IsWellFormed (acquiring lease_id measured now_ns) s h =
      acquire_command-IsWellFormed fl lease_id measured now_ns h
  perform-IsWellFormed (beating lease_id now_ns) s h = heartbeat-IsWellFormed lease_id now_ns h
  perform-IsWellFormed (accepting c now_ns feedback) s h =
      accept-IsWellFormed fl c now_ns feedback h
  perform-IsWellFormed (releasing lease_id reason) s h = release-IsWellFormed lease_id reason h
  perform-IsWellFormed (checking now_ns) s h = check_timeouts-IsWellFormed now_ns h

  run_from-IsWellFormed :
      (calls : List (Call F)) (s : Session F) → IsWellFormed s → IsWellFormed (run calls s)
  unfolding run
  run_from-IsWellFormed [] s h = h
  run_from-IsWellFormed (call ∷ calls) s h =
      run_from-IsWellFormed calls (perform call s) (perform-IsWellFormed call s h)

  -- After any calls on a new session, accepted or refused, a session in command holds a complete
  -- lease under a policy that is ready, with its times in order, and any other session has none of
  -- a lease's fields.
  pub run-IsWellFormed :
      (p : Policy F) (calls : List (Call F)) → IsWellFormed (run calls (initialize p))
  run-IsWellFormed p calls = run_from-IsWellFormed calls (initialize p) (initialize-IsWellFormed p)

  admit-policy :
      (c : _) (now_ns : Value F) (feedback : _) (s : Session F)
      → (admit fl c now_ns feedback s).1.policy ≡ s.policy
  unfolding admit
  admit-policy c now_ns feedback s = ground arith

  policy-perform : (call : Call F) (s : Session F) → (perform call s).policy ≡ s.policy
  unfolding perform connect_read_only disconnect acquire_command heartbeat accept release
      check_timeouts enter
  policy-perform (accepting c now_ns feedback) s =
      elim (Result-cases (snapshot_command_envelope fl c)) [
        | inl (c', e) ↦ ground (arith, e, admit-policy c' now_ns feedback s)
        | inr (x, e) ↦ ground (arith, e)
      ]
  policy-perform _ s = ground arith

  policy-run : (calls : List (Call F)) (s : Session F) → (run calls s).policy ≡ s.policy
  unfolding run
  policy-run [] s = refl
  policy-run (call ∷ calls) s = policy-run calls (perform call s) ∙ policy-perform call s

  -- If the policy is not command-ready, no sequence of calls on a new session brings it into
  -- command mode.
  pub unready-run_ne_command :
      (p : Policy F) (calls : List (Call F))
      → p.command_ready ≡ false
      → (run calls (initialize p)).mode ≢ command
  unfolding initialize
  unready-run_ne_command p calls unready commanding =
      let held : IsHeld (run calls (initialize p)) = (run-IsWellFormed p calls).held commanding in
      cc (policy-run calls (initialize p), held.ready)

  idle-perform :
      (call : Call F) (s : Session F)
      → is_acquiring call ≡ false
      → s.mode ≢ command
      → (perform call s).mode ≢ command
  unfolding perform connect_read_only disconnect heartbeat accept release check_timeouts enter
  idle-perform (accepting c now_ns feedback) s h idle =
      elim (Result-cases (snapshot_command_envelope fl c)) [
        | inl (c', e) ↦ ground (arith, e)
        | inr (x, e) ↦ ground (arith, e)
      ]
  idle-perform _ s h idle = ground arith

  -- A lease that has ended, whatever ended it, comes back only through a new acquisition: from a
  -- session that is not in command, calls without `acquire_command` never lead to command mode.
  pub idle-run :
      (calls : List (Call F)) (s : Session F)
      → all (λ call. not (is_acquiring call)) calls ≡ true
      → s.mode ≢ command
      → (run calls s).mode ≢ command
  unfolding run
  idle-run [] s h idle = idle
  idle-run (call ∷ calls) s h idle =
      idle-run calls (perform call s) (ground arith) (idle-perform call s (ground arith) idle)
