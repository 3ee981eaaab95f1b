-- ===== src/Prelude/Value.antt =====
-- Values of Python's dynamic types, and the number type of the joint values.
use Prim.Native.Nat.{ℕ}
use Prim.Native.String.{String}
use mathlib.Core.Bool.{Bool}
use mathlib.Core.Option.{Option, none, some}
use vlai_l1_runtime.Prelude.Int.{ℤ, pos}

-- `float`, with the operations that the program applies to joint values.
pub record Floats : Type 1 where
  pub F : Type 0
  -- `math.isfinite`
  pub is_finite : F → Bool
  -- `float(n)` of an int; `none` is its OverflowError
  pub of_int : ℤ → Option F
  -- `abs(a - b)`
  pub distance : F → F → F
  -- `a < b`
  pub lt : F → F → Bool
  pub zero_value : F

-- `bool` is not an int here, as the tests `isinstance(value, bool)` want it.
pub data Value (F : Type 0) : Type 0 where
  absent : Value F
  bool : Bool → Value F
  int : ℤ → Value F
  real : F → Value F
  text : String → Value F
  other : Value F

-- The test `isinstance(v, bool) or not isinstance(v, int) or v < 0`: what it lets pass, as a number.
abbrev pub natural : {F : Type 0} → Value F → Option ℕ
natural (int (pos n)) = some n
natural _ = none

-- An object that a public method receives: an instance of the class that it wants, an instance
-- whose attributes are not set, or anything else.
pub data Received (A : Type 0) : Type 0 where
  instance_of : A → Received A
  incomplete : Received A
  foreign : Received A
