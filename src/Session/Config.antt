-- ===== src/Session/Config.antt =====
-- `_SessionPolicy.__post_init__` and `CommandSession.__init__`: a session from a configuration.
use vlai_l1_runtime.Prelude.{
  ℕ, String, Bool, true, false, not, ◌||◌, Option, none, some, List, [], ◌∷◌, ltb, if◌then◌else◌,
}
use vlai_l1_runtime.Prelude.Int.{ℤ, pos}
use vlai_l1_runtime.Prelude.Result.{Result, ok, err, ◌>>=◌, ◌>>◌, guard}
use vlai_l1_runtime.Prelude.Value.{Floats, Value, bool, int, real}
use vlai_l1_runtime.Session.State.{Session, Policy, initialize}

pub data ConfigError : Type 0 where
  not_loader_validated readiness_inconsistent : ConfigError
  ready_not_bool bad_timeouts bad_tolerance overflow : ConfigError

-- What `CommandSession.__init__` reads of a `SystemConfig`. The two time-outs stand as the results
-- of `math.ceil(seconds * 1e9)`, which are ints; `loader_validated` is what `_is_loader_validated`
-- returns, False where it raises.
pub record SystemConfig (F : Type 0) : Type 0 where
  pub loader_validated : Bool
  pub command_blockers : List String
  pub command_ready : Bool
  pub session_liveness_timeout_ns : ℤ
  pub command_inactivity_timeout_ns : ℤ
  pub first_command_hold_tolerance_deg : F

abbrev positive : ℤ → Option ℕ
positive (pos n) = if ltb 0 n then some n else none
positive _ = none

abbrev is_empty : List String → Bool
is_empty [] = true
is_empty (x ∷ xs) = false

abbrev bool_eq : Bool → Bool → Bool
bool_eq true b = b
bool_eq false b = not b

module _ (fl : Floats) where
  open fl use {F, is_finite, of_int, lt, zero_value}

  abbrev positive_timeout : Value F → Result ConfigError ℕ
  positive_timeout (int z) = elim (positive z) [ none ↦ err bad_timeouts | some n ↦ ok n ]
  positive_timeout _ = err bad_timeouts

  abbrev tolerance : F → Result ConfigError F
  tolerance x = if not (is_finite x) || lt x zero_value then err bad_tolerance else ok x

  abbrev tolerance_value : Value F → Result ConfigError F
  tolerance_value (int z) = elim (of_int z) [ none ↦ err overflow | some x ↦ tolerance x ]
  tolerance_value (real x) = tolerance x
  tolerance_value _ = err bad_tolerance

  abbrev ready_value : Value F → Result ConfigError Bool
  ready_value (bool b) = ok b
  ready_value _ = err ready_not_bool

  -- An int tolerance is kept as the float that equals it.
  unfoldable pub make_policy : Value F → Value F → Value F → Value F → Result ConfigError (Policy F)
  make_policy command_ready liveness inactivity hold = do
    ready ← ready_value command_ready
    live ← positive_timeout liveness
    idle ← positive_timeout inactivity
    limit ← tolerance_value hold
    ok (record {
      command_ready = ready;
      liveness_timeout_ns = live;
      command_inactivity_timeout_ns = idle;
      first_command_hold_tolerance_deg = limit;
    })

  unfoldable pub command_session : SystemConfig F → Result ConfigError (Session F)
  unfolding make_policy
  command_session config = do
    guard config.loader_validated not_loader_validated
    guard (bool_eq config.command_ready (is_empty config.command_blockers)) readiness_inconsistent
    policy ←
        make_policy (bool config.command_ready) (int config.session_liveness_timeout_ns)
          (int config.command_inactivity_timeout_ns) (real config.first_command_hold_tolerance_deg)
    ok (initialize policy)
