-- ===== src/Hkvl/Resync.antt =====
-- The two ways in which a round skips bytes are one: up to the first header, or to a last byte that
-- may begin one.
use vlai_l1_runtime.Prelude.{
  ℕ, zero, suc, ◌+◌, ◌-◌, ◌≤◌, ◌<◌, ◌≡◌, refl, sym, ◌∙◌, ap, false, ◌&&◌, ◌⊎◌, inl, inr, Option,
  none, some, List, [], ◌∷◌, ◌++◌, arith, length, drop, ◌==◌, if◌then◌else◌, length-drop,
  Option-cases, Bool-cases,
}
use vlai_l1_runtime.Hkvl.Decoder.{FrameDecoder, stop, find, kept, discard, at_header, resync, round}

-- How many bytes to skip.
pub skipped : List ℕ → ℕ
skipped [] = 0
skipped (x ∷ []) = if x == 0x53 then 0 else 1
skipped (x ∷ y ∷ rest) =
    let later = skipped (y ∷ rest) in if x == 0x53 && y == 0x54 then 0 else suc later

find-skipped : (xs : List ℕ) (i : ℕ) → find xs ≡ some i → skipped xs ≡ i
unfolding find skipped
find-skipped [] i h = cc
find-skipped (x ∷ []) i h = cc
find-skipped (x ∷ y ∷ rest) i h = elim (Option-cases (find (y ∷ rest))) [
  | inl missing ↦ ground (arith, missing)
  | inr (j, found) ↦ ground (arith, found, find-skipped (y ∷ rest) j found)
]

kept-le-one : (xs : List ℕ) → kept xs ≤ 1
unfolding kept
kept-le-one [] = omega arith
kept-le-one (x ∷ []) = ground arith
kept-le-one (x ∷ y ∷ rest) = kept-le-one (y ∷ rest)

find-none-skipped : (xs : List ℕ) → find xs ≡ none → skipped xs ≡ length xs - kept xs
unfolding find skipped kept
find-none-skipped [] h = refl
find-none-skipped (x ∷ []) h = ground arith
find-none-skipped (x ∷ y ∷ rest) h = elim (Option-cases (find (y ∷ rest))) [
  | inl missing ↦
      ground (arith, missing, find-none-skipped (y ∷ rest) missing, kept-le-one (y ∷ rest))
  | inr (j, found) ↦ ground (arith, found)
]

pub skipped-le : (xs : List ℕ) → skipped xs ≤ length xs
unfolding skipped
skipped-le [] = omega arith
skipped-le (x ∷ []) = ground arith
skipped-le (x ∷ y ∷ rest) = ground (arith, skipped-le (y ∷ rest))

pub discard-zero : (d : FrameDecoder) → discard 0 d ≡ d
unfolding discard
discard-zero d = ground arith

stop_short : (d : FrameDecoder) → length d.buffer < 28 → at_header d ≡ stop d
stop_short d h = ground arith

pub length-discard : (n : ℕ) (d : FrameDecoder) → length (discard n d).buffer ≡ length d.buffer - n
unfolding discard
length-discard n d = length-drop n d.buffer

resync-skipped :
    (d : FrameDecoder) (o : Option ℕ)
    → find d.buffer ≡ o
    → resync o d ≡ at_header (discard (skipped d.buffer) d)
unfolding resync
resync-skipped d none e = rw (find-none-skipped d.buffer e) (
    sym (
      stop_short (discard (length d.buffer - kept d.buffer) d)
        (omega (arith, length-discard (length d.buffer - kept d.buffer) d, kept-le-one d.buffer))))
resync-skipped d (some zero) e =
    sym (ap at_header (ap (λ n. discard n d) (find-skipped d.buffer zero e) ∙ discard-zero d))
resync-skipped d (some (suc i)) e =
    let positive : (suc i == 0) ≡ false = ground arith in
    rw positive (sym (ap at_header (ap (λ n. discard n d) (find-skipped d.buffer (suc i) e))))

-- A round skips, and then looks at what begins the buffer.
pub round-skipped : (d : FrameDecoder) → round d ≡ at_header (discard (skipped d.buffer) d)
unfolding round
round-skipped d = resync-skipped d (find d.buffer) refl

pub round_nil : (d : FrameDecoder) → d.buffer ≡ [] → round d ≡ stop d
unfolding round resync find discard
round_nil d h = ground (arith, h)

-- What a skip leaves begins with a header, or is too short for one.
pub drop-skipped :
    (xs : List ℕ)
    → (length (drop (skipped xs) xs) ≤ 1)
      ⊎ ((rest : List ℕ) × (drop (skipped xs) xs ≡ 0x53 ∷ 0x54 ∷ rest))
unfolding skipped
drop-skipped [] = inl (omega arith)
drop-skipped (x ∷ []) = inl (ground arith)
drop-skipped (x ∷ y ∷ rest) = elim (Bool-cases (x == 0x53 && y == 0x54)) [
  | inl header ↦ inr (rest, ground (arith, header))
  | inr other ↦ rw other (drop-skipped (y ∷ rest))
]

-- Skipping is the same in two parts: what it leaves of the first, and then the second.
pub skipped-append :
    (xs ys : List ℕ) → skipped (xs ++ ys) ≡ skipped xs + skipped (drop (skipped xs) xs ++ ys)
unfolding skipped
skipped-append [] ys = omega arith
skipped-append (x ∷ []) [] = ground arith
skipped-append (x ∷ []) (y ∷ ys) = ground arith
skipped-append (x ∷ y ∷ rest) ys = elim (Bool-cases (x == 0x53 && y == 0x54)) [
  | inl header ↦ ground (arith, header)
  | inr other ↦ rw other (omega (arith, skipped-append (y ∷ rest) ys))
]

pub skipped-header : (rest : List ℕ) → skipped (0x53 ∷ 0x54 ∷ rest) ≡ 0
unfolding skipped
skipped-header rest = refl
