-- ===== src/Collection/ScaleTests.antt =====
-- Lines of the scale in two chunks, and the end of a line that was too long.
use vlai_l1_runtime.Prelude.{
  ℕ, zero, suc, length, ◌+◌, ◌-◌, ◌*◌, ◌≤◌, ◌≡◌, refl, Bool, true, false, List, [], ◌∷◌, ◌++◌,
  arith,
}
use vlai_l1_runtime.Prelude.Text.{codes}
use vlai_l1_runtime.Collection.Scale.{Weights, Reading, split_lines, without_zeros, feed}
use vlai_l1_runtime.Collection.Readings.{feed_joined}

abbrev value : ℕ → List ℕ → ℕ
value n [] = n
value n (d ∷ ds) = value (10 * n + (d - 48)) ds

-- Weights in whole grams; a negative one is 0.
abbrev grams : Weights ℕ
grams = record {
  number = λ whole part. value 0 whole;
  thousand_fold = λ n. 1000 * n;
  negative = λ n. 0;
  is_finite = λ n. true;
}

abbrev first : List ℕ
first = codes "ST,GS,+ 12.50 g" ++ 13 ∷ 10 ∷ codes "us,NT,+"

abbrev second : List ℕ
second = 0 ∷ codes "2kg" ++ 10 ∷ codes "ST,GS,12 g" ++ 10 ∷ []

abbrev reading : ℕ → Bool → Bool → Reading ℕ
reading n stable net = record { weight_g = n; stable = stable; tared = false; net = net }

both-read :
    feed grams (first ++ second) [] ≡ (reading 12 true false ∷ reading 2000 false true ∷ [], [])
unfolding feed
both-read = refl

first-short :
    split_lines ([] ++ without_zeros first)
    ≡ ((codes "ST,GS,+ 12.50 g" ++ 13 ∷ []) ∷ [], codes "us,NT,+")
unfolding split_lines without_zeros
first-short = refl

open-short : length (split_lines ([] ++ without_zeros first)).1 ≤ 96
unfolding split_lines without_zeros
open-short = let seven : 7 ≤ 96 = omega arith in seven

feed_joined_example :
    ((feed grams (first ++ second) []).0
      ≡ (feed grams first []).0 ++ (feed grams second (feed grams first []).1).0)
    × ((feed grams (first ++ second) []).1 ≡ (feed grams second (feed grams first []).1).1)
feed_joined_example = feed_joined grams first second [] open-short

abbrev repeated : ℕ → List ℕ → List ℕ
repeated zero rest = rest
repeated (suc n) rest = 88 ∷ repeated n rest

-- A malformed line of more than 96 bytes is dropped in one chunk; but where its first 97 bytes come
-- alone, the buffer is cleared and the rest of the line is read as a line of its own.
long_line-dropped : feed grams (repeated 97 (codes "ST,GS,+1g" ++ 10 ∷ [])) [] ≡ ([], [])
unfolding feed
long_line-dropped = refl

long_line-read :
    feed grams (codes "ST,GS,+1g" ++ 10 ∷ []) (feed grams (repeated 97 []) []).1
    ≡ (reading 1 true false ∷ [], [])
unfolding feed
long_line-read = refl
