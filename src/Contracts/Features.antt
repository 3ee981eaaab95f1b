-- ===== src/Contracts/Features.antt =====
-- Feature names: `FEATURE_NAMES`, `feature_names_for_sides`, `_validate_feature_names`.
use Prim.Native.String.{◌++◌ as str_append}
use vlai_l1_runtime.Prelude.{
  String, Bool, true, false, not, ◌&&◌, ◌||◌, List, [], ◌∷◌, ◌++◌, map, str_eq, if◌then◌else◌,
}
use vlai_l1_runtime.Prelude.Result.{Result, ok, err}
use vlai_l1_runtime.Contracts.Types.{
  ContractError, names_empty, names_repeated, names_unknown, names_order, sides_empty,
  sides_invalid, sides_order,
}

abbrev pub motor_names : List String
motor_names =
    "joint_1" ∷ "joint_2" ∷ "joint_3" ∷ "joint_4" ∷ "joint_5" ∷ "joint_6" ∷ "joint_7" ∷ "gripper"
    ∷ []

abbrev pub sides : List String
sides = "left" ∷ "right" ∷ []

abbrev pub side_features : String → List String
side_features side =
    map (λ motor. str_append side (str_append "_" (str_append motor ".pos"))) motor_names

-- `FEATURE_NAMES`
unfoldable pub feature_names : List String
feature_names = side_features "left" ++ side_features "right"

-- `name in names`
unfoldable pub contains : String → List String → Bool
contains a [] = false
contains a (x ∷ xs) = str_eq a x || contains a xs

-- `len(names) == len(set(names))`
unfoldable pub unique : List String → Bool
unfolding contains
unique [] = true
unique (x ∷ xs) = not (contains x xs) && unique xs

-- `set(names) <= set(others)`
unfoldable pub subset : List String → List String → Bool
unfolding contains
subset [] others = true
subset (x ∷ xs) others = contains x others && subset xs others

-- `names == others` of two tuples
unfoldable pub names_eq : List String → List String → Bool
names_eq [] [] = true
names_eq (x ∷ xs) (y ∷ ys) = str_eq x y && names_eq xs ys
names_eq _ _ = false

-- `tuple(name for name in order if name in names)`
unfoldable pub restricted : List String → List String → List String
unfolding contains
restricted [] names = []
restricted (x ∷ order) names =
    let rest = restricted order names in if contains x names then x ∷ rest else rest

abbrev is_empty : List String → Bool
is_empty [] = true
is_empty (x ∷ xs) = false

abbrev pub flat_features : List String → List String
flat_features [] = []
flat_features (side ∷ rest) = side_features side ++ flat_features rest

unfoldable pub feature_names_for_sides : List String → Result ContractError (List String)
unfolding unique subset restricted names_eq
feature_names_for_sides chosen =
    if is_empty chosen
    then err sides_empty
    else if not (unique chosen) || not (subset chosen sides)
    then err sides_invalid
    else if not (names_eq chosen (restricted sides chosen))
    then err sides_order
    else ok (flat_features chosen)

unfoldable pub validate_feature_names : List String → Result ContractError (List String)
unfolding feature_names unique subset restricted names_eq
validate_feature_names names =
    if is_empty names
    then err names_empty
    else if not (unique names)
    then err names_repeated
    else if not (subset names feature_names)
    then err names_unknown
    else if not (names_eq names (restricted feature_names names))
    then err names_order
    else ok names
