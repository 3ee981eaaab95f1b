-- ===== src/CameraIpc/Json.antt =====
-- The JSON values of requests and headers. `json` itself is a parameter.
use vlai_l1_runtime.Prelude.{
  ℕ, String, ◌≡◌, Bool, true, false, ◌&&◌, Option, none, some, List, [], ◌∷◌, ◌==◌, str_eq,
}
use vlai_l1_runtime.Prelude.Int.{ℤ, pos, negsuc}

mutual
  pub data Json (F : Type 0) : Type 0 where
    null : Json F
    flag : Bool → Json F
    int : ℤ → Json F
    real : F → Json F
    text : String → Json F
    list : Jsons F → Json F
    object : Fields F → Json F

  pub data Jsons (F : Type 0) : Type 0 where
    end : Jsons F
    item : Json F → Jsons F → Jsons F

  pub data Fields (F : Type 0) : Type 0 where
    no_more : Fields F
    field : String → Json F → Fields F → Fields F

-- `json.dumps(...).encode()`, which refuses a float that is not finite, `json.loads`, and the equality
-- of a float and an int.
pub record JsonCodec (F : Type 0) : Type 0 where
  pub dumps : Json F → Option (List ℕ)
  pub loads : List ℕ → Option (Json F)
  pub equals : F → ℤ → Bool

-- What is written is read back.
pub record HasRoundTrip {F : Type 0} (js : JsonCodec F) : Type 0 where
  pub loads-dumps :
      (v : Json F) (bytes : List ℕ) → js.dumps v ≡ some bytes → js.loads bytes ≡ some v

module _ {F : Type 0} where
  abbrev pub get : String → Fields F → Option (Json F)
  get k no_more = none
  get k (field j v rest) = elim (str_eq j k) [ true ↦ some v | false ↦ get k rest ]

  abbrev pub names_in : Fields F → List String
  names_in no_more = []
  names_in (field j v rest) = j ∷ names_in rest

  abbrev pub json_items : Jsons F → List (Json F)
  json_items end = []
  json_items (item v rest) = v ∷ json_items rest

  abbrev pub jsons : List (Json F) → Jsons F
  jsons [] = end
  jsons (v ∷ vs) = item v (jsons vs)

abbrev pub int_eq : ℤ → ℕ → Bool
int_eq (pos m) n = m == n
int_eq (negsuc m) n = false

-- `value == n`: a bool counts as 0 or 1, a float by its value.
abbrev pub is_number : {F : Type 0} → JsonCodec F → ℕ → Json F → Bool
is_number js n (flag true) = n == 1
is_number js n (flag false) = n == 0
is_number js n (int z) = int_eq z n
is_number js n (real x) = js.equals x (pos n)
is_number js n _ = false

abbrev pub is_text : {F : Type 0} → String → Json F → Bool
is_text s (text t) = str_eq t s
is_text s _ = false

abbrev numbers_match : {F : Type 0} → JsonCodec F → List ℕ → List (Json F) → Bool
numbers_match js [] [] = true
numbers_match js (n ∷ ns) (v ∷ vs) = is_number js n v && numbers_match js ns vs
numbers_match js _ _ = false

-- `value == [n, ...]`
abbrev pub are_numbers : {F : Type 0} → JsonCodec F → List ℕ → Json F → Bool
are_numbers js ns (list vs) = numbers_match js ns (json_items vs)
are_numbers js ns _ = false

-- A key that may be missing: `value.get(k) == ...`
abbrev pub holds : {F : Type 0} → (Json F → Bool) → Option (Json F) → Bool
holds test none = false
holds test (some v) = test v

-- `_nonnegative_integer`
abbrev pub nonnegative : {F : Type 0} → Option (Json F) → Option ℕ
nonnegative (some (int (pos n))) = some n
nonnegative _ = none
