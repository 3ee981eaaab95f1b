-- ===== src/Contracts/Tests.antt =====
-- A whole pose, checked.
use vlai_l1_runtime.Prelude.{ℕ, String, ◌≡◌, refl, List, map}
use vlai_l1_runtime.Prelude.Int.{pos}
use vlai_l1_runtime.Prelude.Result.{ok}
use vlai_l1_runtime.Prelude.Naturals.{naturals}
use vlai_l1_runtime.Prelude.Value.{int, text}
use vlai_l1_runtime.Contracts.Types.{Mapping, mapping}
use vlai_l1_runtime.Contracts.Features.{feature_names, validate_feature_names}
use vlai_l1_runtime.Contracts.Values.{keys, as_mapping, validate_named_values}
use vlai_l1_runtime.Contracts.Laws.{AllFinite, validate_named_values-exact}

abbrev pose : Mapping ℕ
pose = mapping (map (λ name. (text name, int (pos 7))) feature_names)

abbrev checked : List (String × ℕ)
checked = map (λ name. (name, 7)) feature_names

pose-checked : validate_named_values naturals feature_names pose ≡ ok checked
unfolding validate_named_values validate_feature_names feature_names
pose-checked = refl

validate_named_values-exact_example :
    (keys checked ≡ feature_names)
    × AllFinite naturals checked
    × (validate_named_values naturals feature_names (as_mapping checked) ≡ ok checked)
validate_named_values-exact_example =
    validate_named_values-exact naturals feature_names pose checked pose-checked
