-- ===== src/Session/Blocked.antt =====
-- A configuration with blockers yields no session that can command.
use vlai_l1_runtime.Prelude.{◌≡◌, ◌≢◌, false, String, List, ◌∷◌, ◌<◌, arith}
use vlai_l1_runtime.Prelude.Result.{ok}
use vlai_l1_runtime.Prelude.Value.{Floats}
use vlai_l1_runtime.Session.State.{Session, Policy, command, initialize}
use vlai_l1_runtime.Session.Config.{SystemConfig, command_session}
use vlai_l1_runtime.Session.Events.{Call, run, unready-run_ne_command}

module _ (fl : Floats) where
  open fl use {F}

  command_session-policy :
      (config : SystemConfig F) (s : Session F)
      → command_session fl config ≡ ok s
      → (p : Policy F) × (s ≡ initialize p)
        × (p.command_ready ≡ config.command_ready)
        × (0 < p.liveness_timeout_ns)
        × (0 < p.command_inactivity_timeout_ns)
  unfolding command_session initialize
  command_session-policy config s h =
      (s.policy, ground arith, ground arith, ground arith, ground arith)

  -- A session that is constructed from a configuration with a command blocker never comes into
  -- command mode, whatever calls it receives.
  pub blocked-run_ne_command :
      (config : SystemConfig F) (blocker : String) (blockers : List String) (s : Session F)
      (calls : List (Call F))
      → config.command_blockers ≡ blocker ∷ blockers
      → command_session fl config ≡ ok s
      → (run fl calls s).mode ≢ command
  unfolding command_session
  blocked-run_ne_command config blocker blockers s calls blocked made =
      let (p, fresh, ready, live, active) = command_session-policy config s made in
      let unready : config.command_ready ≡ false = ground arith in
      rw fresh (unready-run_ne_command fl p calls (cc))
