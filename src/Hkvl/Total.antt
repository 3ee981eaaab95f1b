-- ===== src/Hkvl/Total.antt =====
-- The loop ends within its fuel, whose size does not change its result.
use vlai_l1_runtime.Prelude.{
  ℕ, zero, suc, ◌≤◌, ◌<◌, ◌≡◌, refl, sym, ◌∙◌, ap, Option, none, some, List, [], ◌∷◌, ◌++◌, arith,
  inl, inr, length, length-drop, List-cases, Option-cases,
}
use vlai_l1_runtime.Hkvl.Decoder.{
  FrameDecoder, Sample, Round, stop, again, emit, discard, at_header, check_frame, round, loop,
  extend, feed,
}
use vlai_l1_runtime.Hkvl.Resync.{skipped, length-discard, round-skipped, round_nil}

-- One round, the buffer empty or not.
abbrev pub after : ℕ → Round → Option (FrameDecoder × List Sample)
after fuel (stop d) = some (d, [])
after fuel (again d) = loop fuel d
after fuel (emit sample d) = elim (loop fuel d) [
  | none ↦ none
  | some (d', samples) ↦ some (d', sample ∷ samples)
]

pub loop-round : (fuel : ℕ) (d : FrameDecoder) → loop (suc fuel) d ≡ after fuel (round d)
unfolding loop
loop-round fuel d = elim (List-cases d.buffer) [
  | inl nothing ↦ ground (arith, nothing, round_nil d nothing)
  | inr (b, bs, more) ↦ ground (arith, more)
]

-- A round that does not end the loop takes bytes from the buffer.
abbrev Shorter : FrameDecoder → Round → Type 0
Shorter d (stop d') = Unit {0}
Shorter d (again d') = length d'.buffer < length d.buffer
Shorter d (emit sample d') = length d'.buffer < length d.buffer

at_header-Shorter : (d : FrameDecoder) → Shorter d (at_header d)
unfolding check_frame
at_header-Shorter d = ground (arith, length-drop 1 d.buffer, length-drop 28 d.buffer)

Shorter-weaken :
    (d e : FrameDecoder) (r : Round) → length e.buffer ≤ length d.buffer → Shorter e r → Shorter d r
Shorter-weaken d e (stop d') le h = tt
Shorter-weaken d e (again d') le h = omega arith
Shorter-weaken d e (emit sample d') le h = omega arith

pub round-Shorter : (d : FrameDecoder) → Shorter d (round d)
round-Shorter d =
    let e = discard (skipped d.buffer) d in
    rw round-skipped (
      Shorter-weaken d e (at_header e) (omega (arith, length-discard (skipped d.buffer) d))
        (at_header-Shorter e))

abbrev Ends : Option (FrameDecoder × List Sample) → Type 0
Ends o = (r : FrameDecoder × List Sample) × (o ≡ some r)

after-Ends :
    (fuel : ℕ) (d : FrameDecoder) (r : Round)
    → ((d' : FrameDecoder) → length d'.buffer < length d.buffer → Ends (loop fuel d'))
    → Shorter d r
    → Ends (after fuel r)
after-Ends fuel d (stop d') ends h = ((d', []), refl)
after-Ends fuel d (again d') ends h = ends d' h
after-Ends fuel d (emit sample d') ends h =
    let ((d'', samples), e) = ends d' h in ((d'', sample ∷ samples), ground (arith, e))

-- More fuel than bytes is enough.
pub loop-Ends : (fuel : ℕ) (d : FrameDecoder) → length d.buffer < fuel → Ends (loop fuel d)
loop-Ends zero d h = absurd (omega arith)
loop-Ends (suc fuel) d h =
    rw loop-round (
      after-Ends fuel d (round d) (λ d' shorter. loop-Ends fuel d' (omega arith)) (round-Shorter d))

-- `feed` returns on every chunk: the fuel that it is given is enough.
pub feed_total :
    (chunk : List ℕ) (d : FrameDecoder) → (r : FrameDecoder × List Sample) × (feed chunk d ≡ some r)
unfolding feed
feed_total chunk d = loop-Ends (suc (length (d.buffer ++ chunk))) (extend chunk d) (omega arith)

-- The result of a round that emits, from the result of the rest.
pub after-emit :
    (fuel : ℕ) (sample : Sample) (d : FrameDecoder) (r : FrameDecoder × List Sample)
    → after fuel (emit sample d) ≡ some r
    → (samples : List Sample) × (loop fuel d ≡ some (r.0, samples)) × (r.1 ≡ sample ∷ samples)
after-emit fuel sample d r h = elim (Option-cases (loop fuel d)) [
  | inl nothing ↦ absurd (ground (arith, nothing))
  | inr ((d', samples), e) ↦ (samples, ground (arith, e), ground (arith, e))
]

pub Result-eq : (r s : FrameDecoder × List Sample) → r.0 ≡ s.0 → r.1 ≡ s.1 → r ≡ s
Result-eq r s p q = λ i. (p i, q i)

after_agree :
    (f g : ℕ) (x : Round) (r s : FrameDecoder × List Sample)
    → ((d : FrameDecoder) (r s : FrameDecoder × List Sample)
        → loop f d ≡ some r
        → loop g d ≡ some s
        → r ≡ s)
    → after f x ≡ some r
    → after g x ≡ some s
    → r ≡ s
after_agree f g (stop d) r s agree h k = cc
after_agree f g (again d) r s agree h k = agree d r s h k
after_agree f g (emit sample d) r s agree h k =
    let (xs, e, ex) = after-emit f sample d r h in
    let (ys, e', ey) = after-emit g sample d s k in
    let same = agree d (r.0, xs) (s.0, ys) e e' in
    Result-eq r s (ap (λ (t : FrameDecoder × List Sample). t.0) same)
      (ex ∙ ap (λ (t : FrameDecoder × List Sample). sample ∷ t.1) same ∙ sym ey)

-- The fuel does not change a result.
pub loop_agree :
    (f g : ℕ) (d : FrameDecoder) (r s : FrameDecoder × List Sample)
    → loop f d ≡ some r
    → loop g d ≡ some s
    → r ≡ s
unfolding loop
loop_agree zero g d r s h k = cc
loop_agree (suc f) zero d r s h k = cc
loop_agree (suc f) (suc g) d r s h k =
    after_agree f g (round d) r s (λ d' r' s'. loop_agree f g d' r' s') (sym (loop-round f d) ∙ h)
      (sym (loop-round g d) ∙ k)
