-- ===== src/Prelude/Naturals.antt =====
-- Joint values that are natural numbers: the instance of `Floats` at which the examples run.
use Prim.Native.Nat.{ℕ, ◌+◌, ◌-◌}
use mathlib.Core.Bool.{true}
use mathlib.Core.Option.{Option, none, some}
use vlai_l1_runtime.Prelude.Tests.{ltb}
use vlai_l1_runtime.Prelude.Int.{ℤ, pos, negsuc}
use vlai_l1_runtime.Prelude.Value.{Floats}

abbrev number : ℤ → Option ℕ
number (pos n) = some n
number (negsuc n) = none

abbrev pub naturals : Floats
naturals = record {
  F = ℕ;
  is_finite = λ x. true;
  of_int = number;
  distance = λ a b. (a - b) + (b - a);
  lt = ltb;
  zero_value = 0;
}
