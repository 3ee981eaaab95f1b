-- ===== src/Collection/Readings.antt =====
-- The readings of the scale do not depend on how its bytes are cut.
use vlai_l1_runtime.Prelude.{
  ℕ, ◌≡◌, refl, ap, sym, ◌∙◌, List, [], ◌∷◌, ◌++◌, length, leb, ◌≤◌, ◌==◌, inl, inr, arith,
  Bool-cases, Option-cases, List-cases,
}
use mathlib.Core.List.{append_assoc}
use vlai_l1_runtime.Collection.Scale.{
  Weights, split_lines, without_zeros, not_overlong, parse_line, parse_lines, feed,
}

without_zeros-append :
    (xs ys : List ℕ) → without_zeros (xs ++ ys) ≡ without_zeros xs ++ without_zeros ys
unfolding without_zeros
without_zeros-append [] ys = refl
without_zeros-append (c ∷ xs) ys = ground (arith, without_zeros-append xs ys)

-- The lines of two pieces are those of the first, and those of its open line with the second.
split_lines-append :
    (xs ys : List ℕ)
    → (split_lines (xs ++ ys)).0 ≡ (split_lines xs).0 ++ (split_lines ((split_lines xs).1 ++ ys)).0
      × ((split_lines (xs ++ ys)).1 ≡ (split_lines ((split_lines xs).1 ++ ys)).1)
unfolding split_lines
split_lines-append [] ys = (refl, refl)
split_lines-append (c ∷ xs) ys =
    let (complete, open_line) = split_lines-append xs ys in
    elim (Bool-cases (c == 10)) [
      | inl newline ↦ (
        ground (arith, newline, complete, open_line),
        ground (arith, newline, complete, open_line),
      )
      | inr other ↦ elim (List-cases (split_lines xs).0) [
        | inl nothing ↦ (
          ground (arith, other, nothing, complete, open_line),
          ground (arith, other, nothing, complete, open_line),
        )
        | inr (line, lines, found) ↦ (
          ground (arith, other, found, complete, open_line),
          ground (arith, other, found, complete, open_line),
        )
      ]
    ]

module _ {F : Type 0} (w : Weights F) where
  parse_lines-append :
      (xs ys : List (List ℕ)) → parse_lines w (xs ++ ys) ≡ parse_lines w xs ++ parse_lines w ys
  unfolding parse_lines
  parse_lines-append [] ys = refl
  parse_lines-append (line ∷ xs) ys = elim (Bool-cases (leb (length line) 96)) [
    | inr longer ↦ ground (arith, longer, parse_lines-append xs ys)
    | inl fits ↦ elim (Option-cases (parse_line w line)) [
      | inl nothing ↦ ground (arith, fits, nothing, parse_lines-append xs ys)
      | inr (r, parsed) ↦ ground (arith, fits, parsed, parse_lines-append xs ys)
    ]
  ]

  -- Feeding two chunks one after the other gives the readings of the joined chunk, in order, and
  -- the same buffer, if the line that the first leaves open is not cleared as too long.
  pub feed_joined :
      (first second buffer : List ℕ)
      → length (split_lines (buffer ++ without_zeros first)).1 ≤ 96
      → ((feed w (first ++ second) buffer).0
          ≡ (feed w first buffer).0 ++ (feed w second (feed w first buffer).1).0)
        × ((feed w (first ++ second) buffer).1 ≡ (feed w second (feed w first buffer).1).1)
  unfolding feed
  feed_joined first second buffer open_line =
      let joined : buffer ++ without_zeros (first ++ second)
          ≡ (buffer ++ without_zeros first) ++ without_zeros second =
        ap (λ l. buffer ++ l) (without_zeros-append first second)
        ∙ sym (append_assoc buffer (without_zeros first) (without_zeros second)) in
      let start = buffer ++ without_zeros first in
      let (complete, rest) = split_lines-append start (without_zeros second) in
      let kept : (feed w first buffer).1 ≡ (split_lines start).1 = ground (arith, open_line) in
      let behind : List ℕ → List (List ℕ) × List ℕ = λ l. split_lines (l ++ without_zeros second) in
      (
        ap (λ l. parse_lines w (split_lines l).0) joined
            ∙ ap (parse_lines w) complete
            ∙ parse_lines-append (split_lines start).0 (behind (split_lines start).1).0
            ∙ ap (λ l. parse_lines w (split_lines start).0 ++ parse_lines w (behind l).0)
                (sym kept),
        ap (λ l. not_overlong (split_lines l).1) joined
            ∙ ap not_overlong rest
            ∙ ap (λ l. not_overlong (behind l).1) (sym kept),
      )
