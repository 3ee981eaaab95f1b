-- ===== src/Session/Timeouts.antt =====
-- The time-outs of a lease: exactly when it ends, and how a heartbeat extends it.
use vlai_l1_runtime.Prelude.{
  ℕ, ◌+◌, ◌≤◌, ◌<◌, ◌≡◌, refl, ◌⊎◌, String, some, true, false, arith, eq_iff,
}
use vlai_l1_runtime.Prelude.Int.{pos}
use vlai_l1_runtime.Prelude.Result.{ok}
use vlai_l1_runtime.Prelude.Value.{int, text}
use vlai_l1_runtime.Session.State.{Session, Policy, command, read_only}
use vlai_l1_runtime.Session.Checks.{check_timeouts}
use vlai_l1_runtime.Session.Methods.{heartbeat, enter}
use vlai_l1_runtime.Session.Invariant.{IsCleared}

-- The lease of a heartbeat at `h` and a command at `a` does not hold at `now`.
abbrev pub Overdue : {F : Type 0} → Policy F → (h a now : ℕ) → Type 0
Overdue p h a now =
    (now < h)
    ⊎ (now < a)
    ⊎ (h + p.liveness_timeout_ns < now)
    ⊎ (a + p.command_inactivity_timeout_ns < now)

module _ {F : Type 0} where
  -- In command mode, `check_timeouts` at a number of nanoseconds ends the lease, reports it and
  -- leaves a cleared read-only session if the clock went back or a limit has passed; in every other
  -- case it reports nothing and changes nothing.
  pub check_timeouts_exact :
      (n h a : ℕ) (s : Session F)
      → s.mode ≡ command
      → s.last_heartbeat_ns ≡ some h
      → s.last_command_accepted_ns ≡ some a
      → (Overdue s.policy h a n
          → ((check_timeouts (int (pos n)) s).0 ≡ ok true)
            × ((check_timeouts (int (pos n)) s).1.mode ≡ read_only)
            × IsCleared (check_timeouts (int (pos n)) s).1)
        × (¬ Overdue s.policy h a n → check_timeouts (int (pos n)) s ≡ (ok false, s))
  unfolding check_timeouts
  check_timeouts_exact n h a s m eh ea = (λ late. ground arith, λ timely. ground arith)

  -- A heartbeat under the lease in force, at a time when it holds, returns and records that time.
  heartbeat_renews :
      (lease : String) (n h a : ℕ) (s : Session F)
      → s.mode ≡ command
      → s.lease_id ≡ some lease
      → s.last_heartbeat_ns ≡ some h
      → s.last_command_accepted_ns ≡ some a
      → ¬ Overdue s.policy h a n
      → heartbeat (text lease) (int (pos n)) s ≡ (ok tt, record s { last_heartbeat_ns = some n })
  unfolding heartbeat enter
  heartbeat_renews lease n h a s m el eh ea timely = ground (arith, eq_iff lease lease)

  -- After such a heartbeat at `n` the lease is still in force, with nothing else changed, at every
  -- later `t` up to the liveness limit past `n` and the inactivity limit past the last command.
  pub heartbeat_extends :
      (lease : String) (n t h a : ℕ) (s : Session F)
      → s.mode ≡ command
      → s.lease_id ≡ some lease
      → s.last_heartbeat_ns ≡ some h
      → s.last_command_accepted_ns ≡ some a
      → ¬ Overdue s.policy h a n
      → n ≤ t
      → t ≤ n + s.policy.liveness_timeout_ns
      → t ≤ a + s.policy.command_inactivity_timeout_ns
      → check_timeouts (int (pos t)) (heartbeat (text lease) (int (pos n)) s).1
        ≡ (ok false, record s { last_heartbeat_ns = some n })
  heartbeat_extends lease n t h a s m el eh ea timely after alive active =
      rw (heartbeat_renews lease n h a s m el eh ea timely) (
        (check_timeouts_exact t n a (record s { last_heartbeat_ns = some n }) m refl ea).1
          (λ late. ground arith))
