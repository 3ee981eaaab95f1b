-- ===== src/Contracts/Values.antt =====
-- `validate_named_values`: an exact, finite, named vector from a mapping.
use vlai_l1_runtime.Prelude.{
  String, ◌&&◌, Option, none, some, List, [], ◌∷◌, map, str_eq, if◌then◌else◌,
}
use vlai_l1_runtime.Prelude.Result.{Result, ok, err, ◌>>=◌}
use vlai_l1_runtime.Prelude.Value.{Floats, Value, int, real, text}
use vlai_l1_runtime.Contracts.Types.{
  ContractError, not_a_mapping, key_not_text, feature_mismatch, not_numeric, not_finite, Raised,
  contract, overflow_error, Mapping, mapping, not_mapping,
}
use vlai_l1_runtime.Contracts.Features.{subset, validate_feature_names}

module _ {ℓ} {A : Type ℓ} where
  -- `values[name]`
  unfoldable pub lookup : String → List (String × A) → Option A
  lookup k [] = none
  lookup k ((j, v) ∷ m) = if str_eq j k then some v else lookup k m

  abbrev pub keys : List (String × A) → List String
  keys [] = []
  keys ((k, v) ∷ m) = k ∷ keys m

-- The items, if every key is a text.
unfoldable pub text_items :
    {F : Type 0} → List (Value F × Value F) → Option (List (String × Value F))
text_items [] = some []
text_items ((text k, v) ∷ items) = elim (text_items items) [
  | none ↦ none
  | some rest ↦ some ((k, v) ∷ rest)
]
text_items (_ ∷ items) = none

-- `contract` around a check of names, whose exceptions are all ContractErrors
abbrev pub raising {ℓ} : {A : Type ℓ} → Result ContractError A → Result Raised A
raising (ok a) = ok a
raising (err e) = err (contract e)

-- The items of a validated vector, read as a mapping again.
unfoldable pub as_mapping : {F : Type 0} → List (String × F) → Mapping F
as_mapping r = mapping (map (λ (kv : String × _). (text kv.0, real kv.1)) r)

module _ (fl : Floats) where
  open fl use {F, is_finite, of_int}

  abbrev require_finite : String → F → Result Raised F
  require_finite name x = if is_finite x then ok x else err (contract (not_finite name))

  abbrev require_float : String → Option F → Result Raised F
  require_float name none = err overflow_error
  require_float name (some x) = require_finite name x

  -- The body of the loop. A missing key is a KeyError in the source; the key sets agree there.
  unfoldable pub finite_number : String → Option (Value F) → Result Raised F
  finite_number name none = err (contract feature_mismatch)
  finite_number name (some (int z)) = require_float name (of_int z)
  finite_number name (some (real x)) = require_finite name x
  finite_number name (some _) = err (contract (not_numeric name))

  -- for name in feature_names: result[name] = number
  unfoldable pub normalize :
      List String → List (String × Value F) → Result Raised (List (String × F))
  unfolding finite_number lookup
  normalize [] items = ok []
  normalize (name ∷ names) items = do
    number ← finite_number name (lookup name items)
    rest ← normalize names items
    ok ((name, number) ∷ rest)

  abbrev pub validate_items :
      List String → Option (List (String × Value F)) → Result Raised (List (String × F))
  validate_items names none = err (contract key_not_text)
  validate_items names (some items) =
      if subset (keys items) names && subset names (keys items)
      then normalize names items
      else err (contract feature_mismatch)

  unfoldable pub validate_named_values : List String → Mapping F → Result Raised (List (String × F))
  unfolding validate_feature_names text_items normalize
  validate_named_values names not_mapping = do
    checked ← raising (validate_feature_names names)
    err (contract not_a_mapping)
  validate_named_values names (mapping items) = do
    checked ← raising (validate_feature_names names)
    validate_items checked (text_items items)
