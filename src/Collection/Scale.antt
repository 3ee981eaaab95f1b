-- ===== src/Collection/Scale.antt =====
-- `ScaleLineDecoder` of scale.py: the lines of the scale. Bytes are their codes.
use vlai_l1_runtime.Prelude.{
  ℕ, ◌+◌, Bool, true, false, ◌&&◌, ◌||◌, Option, none, some, List, [], ◌∷◌, ◌++◌, length, leb, ◌==◌,
  if◌then◌else◌,
}

-- `float` of the digits before and behind the point, `* 1000.0`, `-` and `math.isfinite`.
pub record Weights (F : Type 0) : Type 0 where
  pub number : (whole fraction : List ℕ) → F
  pub thousand_fold : F → F
  pub negative : F → F
  pub is_finite : F → Bool

-- `(weight_g, stable, tared, net)`
pub record Reading (F : Type 0) : Type 0 where
  pub weight_g : F
  pub stable : Bool
  pub tared : Bool
  pub net : Bool

-- A letter, in either case, as `re.I` reads it.
abbrev is_letter : ℕ → ℕ → Bool
is_letter upper c = c == upper || c == upper + 32

abbrev is_digit : ℕ → Bool
is_digit c = leb 48 c && leb c 57

-- `\s` of bytes
abbrev is_blank : ℕ → Bool
is_blank c = leb 9 c && leb c 13 || c == 32

-- `upper()` of the two letters of a group, if the line begins with them.
abbrev pub two_letters : ℕ → ℕ → List ℕ → Option (List ℕ)
two_letters a b (c ∷ d ∷ rest) = if is_letter a c && is_letter b d then some rest else none
two_letters a b _ = none

abbrev pub skip : ℕ → List ℕ → Option (List ℕ)
skip a [] = none
skip a (c ∷ rest) = if c == a then some rest else none

unfoldable pub skip_blanks : List ℕ → List ℕ
skip_blanks [] = []
skip_blanks (c ∷ rest) = let others = skip_blanks rest in if is_blank c then others else c ∷ rest

-- The digits at the front, and what follows them. No other part of the pattern begins with a digit, so
-- that the greedy match is the only one.
unfoldable pub digits : List ℕ → List ℕ × List ℕ
digits [] = ([], [])
digits (c ∷ rest) =
    let others = digits rest in if is_digit c then (c ∷ others.0, others.1) else ([], c ∷ rest)

abbrev of_length : ℕ → List ℕ → Bool
of_length most ds = leb 1 (length ds) && leb (length ds) most

-- `(?:\.\d{1,6})?`
abbrev fraction : List ℕ → Option (List ℕ × List ℕ)
fraction [] = some ([], [])
fraction (c ∷ rest) =
    let ds = digits rest in
    if c == 46 then (if of_length 6 ds.0 then some ds else none) else some ([], c ∷ rest)

-- `(g|kg)\r?$`: whether the unit is the kilogram.
abbrev is_end : List ℕ → Bool
is_end [] = true
is_end (c ∷ []) = c == 13
is_end _ = false

abbrev kilograms : List ℕ → Option Bool
kilograms [] = none
kilograms (c ∷ rest) =
    if is_letter 71 c
    then (if is_end rest then some false else none)
    else if is_letter 75 c
    then elim rest [
      | [] ↦ none
      | d ∷ others ↦ if is_letter 71 d && is_end others then some true else none
    ]
    else none

-- `(ST|US)`: whether it is ST.
abbrev status : List ℕ → Option (Bool × List ℕ)
status line = elim (two_letters 83 84 line) [
  | some rest ↦ some (true, rest)
  | none ↦ elim (two_letters 85 83 line) [ some rest ↦ some (false, rest) | none ↦ none ]
]

-- `(NT|GS|TR)`: whether it is TR, and whether it is NT.
abbrev mode : List ℕ → Option (Bool × Bool × List ℕ)
mode line = elim (two_letters 78 84 line) [
  | some rest ↦ some (false, true, rest)
  | none ↦ elim (two_letters 71 83 line) [
    | some rest ↦ some (false, false, rest)
    | none ↦ elim (two_letters 84 82 line) [ some rest ↦ some (true, false, rest) | none ↦ none ]
  ]
]

-- `([+-])`: whether it is the minus.
abbrev sign : List ℕ → Option (Bool × List ℕ)
sign [] = none
sign (c ∷ rest) =
    if c == 43 then some (false, rest) else if c == 45 then some (true, rest) else none

infixl 5 ◌>>=◌
abbrev ◌>>=◌ : {A B : Type 0} → Option A → (A → Option B) → Option B
none >>= f = none
some a >>= f = f a

-- `b"\n" in buffer`: the lines that are complete, and what follows the last of them.
unfoldable pub split_lines : List ℕ → List (List ℕ) × List ℕ
split_lines [] = ([], [])
split_lines (c ∷ rest) =
    let others = split_lines rest in
    if c == 10
    then ([] ∷ others.0, others.1)
    else elim others.0 [ [] ↦ ([], c ∷ others.1) | line ∷ lines ↦ ((c ∷ line) ∷ lines, others.1) ]

-- `chunk.replace(b"\x00", b"")`
unfoldable pub without_zeros : List ℕ → List ℕ
without_zeros [] = []
without_zeros (c ∷ rest) = let others = without_zeros rest in if c == 0 then others else c ∷ others

-- `if len(self._buffer) > 96: self._buffer.clear()`
abbrev pub not_overlong : List ℕ → List ℕ
not_overlong line = if leb (length line) 96 then line else []

module _ {F : Type 0} (w : Weights F) where
  abbrev weight : List ℕ → List ℕ → Bool → Bool → F
  weight whole part is_kg is_minus =
      let n = w.number whole part in
      let grams = if is_kg then w.thousand_fold n else n in
      if is_minus then w.negative grams else grams

  -- `_LINE.fullmatch` and what is made of its groups
  unfoldable pub parse_line : List ℕ → Option (Reading F)
  unfolding skip_blanks digits
  parse_line line = do
    stable ← status line
    after_status ← skip 44 stable.1
    modes ← mode after_status
    after_mode ← skip 44 modes.2
    signed ← sign after_mode
    let whole : List ℕ × List ℕ = digits (skip_blanks signed.1)
    part ← (if of_length 12 whole.0 then fraction whole.1 else none)
    is_kg ← kilograms (skip_blanks part.1)
    (let weight_g = weight whole.0 part.0 is_kg signed.0 in
        if w.is_finite weight_g
        then some
            (record { weight_g = weight_g; stable = stable.0; tared = modes.0; net = modes.1 })
        else none)

  unfoldable pub parse_lines : List (List ℕ) → List (Reading F)
  unfolding parse_line
  parse_lines [] = []
  parse_lines (line ∷ lines) =
      let rest = parse_lines lines in
      if leb (length line) 96
      then elim (parse_line line) [ none ↦ rest | some r ↦ r ∷ rest ]
      else rest

  -- `feed`: the readings, and the buffer behind them.
  unfoldable pub feed : List ℕ → (buffer : List ℕ) → List (Reading F) × List ℕ
  unfolding split_lines without_zeros parse_lines
  feed chunk buffer =
      let lines = split_lines (buffer ++ without_zeros chunk) in
      (parse_lines lines.0, not_overlong lines.1)
