-- ===== src/Hkvl/Chunks.antt =====
-- The chunks in which the bytes arrive do not matter.
use vlai_l1_runtime.Prelude.{
  ℕ, zero, suc, ◌+◌, ◌≤◌, ◌≡◌, refl, sym, ◌∙◌, ap, subst, false, inl, inr, some, List, [], ◌∷◌,
  ◌++◌, arith, length, take, drop, length-append, take-append_le, drop-append_le, drop-add, ltb,
  Bool-cases,
}
use mathlib.Core.List.{append_assoc}
use vlai_l1_runtime.Hkvl.Decoder.{
  FrameDecoder, Sample, Round, stop, again, emit, discard, at_header, check_frame, round, loop,
  extend, feed,
}
use vlai_l1_runtime.Hkvl.Resync.{
  skipped, discard-zero, skipped-le, skipped-append, round-skipped, drop-skipped, skipped-header,
}
use vlai_l1_runtime.Hkvl.Total.{after, after-emit, loop-round, loop_agree, loop-Ends, Result-eq}

-- What more bytes make of a round.
abbrev Extended : List ℕ → Round → Round → Type 0
Extended more (stop d) r = r ≡ round (extend more d)
Extended more (again d) r = r ≡ again (extend more d)
Extended more (emit sample d) r = r ≡ emit sample (extend more d)

discard-extend :
    (n : ℕ) (more : List ℕ) (d : FrameDecoder)
    → n ≤ length d.buffer
    → discard n (extend more d) ≡ extend more (discard n d)
unfolding discard
discard-extend n more d h = ground (arith, drop-append_le n d.buffer more h)

discard-add : (m n : ℕ) (d : FrameDecoder) → discard (m + n) d ≡ discard n (discard m d)
unfolding discard
discard-add m n d = ground (arith, drop-add m n d.buffer)

-- A round on more bytes is a round on what skipping leaves, and more bytes.
round-extend :
    (more : List ℕ) (d : FrameDecoder)
    → round (extend more d) ≡ round (extend more (discard (skipped d.buffer) d))
unfolding discard
round-extend more d =
    let e = discard (skipped d.buffer) d in
    let m : ℕ = skipped (e.buffer ++ more) in
    let count : skipped (d.buffer ++ more) ≡ skipped d.buffer + m = skipped-append d.buffer more in
    let moved : discard (skipped (d.buffer ++ more)) (extend more d) ≡ discard m (extend more e) =
      ap (λ n. discard n (extend more d)) count
      ∙ discard-add (skipped d.buffer) m (extend more d)
      ∙ ap (discard m) (discard-extend (skipped d.buffer) more d (skipped-le d.buffer)) in
    round-skipped (extend more d) ∙ ap at_header moved ∙ sym (round-skipped (extend more e))

check_frame-Extended :
    (more : List ℕ) (d : FrameDecoder)
    → 28 ≤ length d.buffer
    → Extended more
        (check_frame (take 28 d.buffer) d)
        (check_frame (take 28 d.buffer) (extend more d))
unfolding check_frame
check_frame-Extended more d h =
    ground (arith, drop-append_le 1 d.buffer more (omega arith), drop-append_le 28 d.buffer more h)

-- The buffer begins with a header that nothing is skipped to reach.
header_kept :
    (more : List ℕ) (xs : List ℕ)
    → 28 ≤ length (drop (skipped xs) xs)
    → skipped (drop (skipped xs) xs ++ more) ≡ 0
header_kept more xs h = elim (drop-skipped xs) [
  | inl short ↦ absurd (omega arith)
  | inr (rest, header) ↦ rw header (skipped-header (rest ++ more))
]

at_header-extend :
    (more : List ℕ) (d : FrameDecoder)
    → 28 ≤ length d.buffer
    → at_header (extend more d) ≡ check_frame (take 28 d.buffer) (extend more d)
at_header-extend more d h =
    let enough : ltb (length (d.buffer ++ more)) 28 ≡ false =
      ground (arith, length-append d.buffer more) in
    rw enough (ap (λ frame. check_frame frame (extend more d)) (take-append_le 28 d.buffer more h))

round-Extended :
    (more : List ℕ) (d : FrameDecoder) → Extended more (round d) (round (extend more d))
round-Extended more d =
    let e = discard (skipped d.buffer) d in
    elim (Bool-cases (ltb (length e.buffer) 28)) [
      | inl short ↦
          let here : round d ≡ stop e = round-skipped d ∙ rw short refl in
          subst (λ x. Extended more x (round (extend more d))) (sym here) (round-extend more d)
      | inr full ↦
          let long : 28 ≤ length e.buffer = ground arith in
          let here : round d ≡ check_frame (take 28 e.buffer) e = round-skipped d ∙ rw full refl in
          let nothing : skipped (e.buffer ++ more) ≡ 0 =
            unfold discard in header_kept more d.buffer (unfold discard in long) in
          let there : round (extend more d) ≡ check_frame (take 28 e.buffer) (extend more e) =
            round-extend more d
            ∙ round-skipped (extend more e)
            ∙ ap at_header
                (ap (λ n. discard n (extend more e)) nothing ∙ discard-zero (extend more e))
            ∙ at_header-extend more e long in
          subst (λ x. Extended more x (round (extend more d))) (sym here)
            (subst (Extended more (check_frame (take 28 e.buffer) e)) (sym there)
              (check_frame-Extended more e long))
    ]

after-chunks :
    (f g h : ℕ) (more : List ℕ) (x y : Round) (one two r : FrameDecoder × List Sample)
    → ((d : FrameDecoder) (one two r : FrameDecoder × List Sample)
        → loop f d ≡ some one
        → loop g (extend more one.0) ≡ some two
        → loop h (extend more d) ≡ some r
        → r ≡ (two.0, one.1 ++ two.1))
    → Extended more x y
    → after f x ≡ some one
    → loop g (extend more one.0) ≡ some two
    → after h y ≡ some r
    → r ≡ (two.0, one.1 ++ two.1)
after-chunks f g h more (stop d) y one two r chunks ext first second whole =
    let ended : one ≡ (d, []) = cc in
    let same : r ≡ two =
      loop_agree (suc h) g (extend more one.0) r two
        (loop-round h (extend more one.0) ∙ rw ended (rw (← ext) whole)) second in
    rw ended same
after-chunks f g h more (again d) y one two r chunks ext first second whole =
    chunks d one two r first second (rw ext at whole)
after-chunks f g h more (emit sample d) y one two r chunks ext first second whole =
    let (xs, e, ex) = after-emit f sample d one first in
    let (zs, e', ez) = after-emit h sample (extend more d) r (rw ext at whole) in
    let same = chunks d (one.0, xs) two (r.0, zs) e second e' in
    rw ex (
      Result-eq r (two.0, sample ∷ (xs ++ two.1))
        (ap (λ (t : FrameDecoder × List Sample). t.0) same)
        (ez ∙ ap (λ (t : FrameDecoder × List Sample). sample ∷ t.1) same))

loop-chunks :
    (f g h : ℕ) (more : List ℕ) (d : FrameDecoder) (one two r : FrameDecoder × List Sample)
    → loop f d ≡ some one
    → loop g (extend more one.0) ≡ some two
    → loop h (extend more d) ≡ some r
    → r ≡ (two.0, one.1 ++ two.1)
unfolding loop
loop-chunks zero g h more d one two r first second whole = absurd (ground arith)
loop-chunks (suc f) g zero more d one two r first second whole = absurd (ground arith)
loop-chunks (suc f) g (suc h) more d one two r first second whole =
    after-chunks f g h more (round d) (round (extend more d)) one two r
      (λ d' one' two' r'. loop-chunks f g h more d' one' two' r') (round-Extended more d)
      (sym (loop-round f d) ∙ first) second (sym (loop-round h (extend more d)) ∙ whole)

-- Feeding two chunks one after the other gives the samples of the joined chunk, in order, and
-- leaves the decoder, its counters included, as the joined chunk does.
pub feed-append :
    (a b : List ℕ) (d : FrameDecoder) (one two : FrameDecoder × List Sample)
    → feed a d ≡ some one
    → feed b one.0 ≡ some two
    → feed (a ++ b) d ≡ some (two.0, one.1 ++ two.1)
unfolding feed
feed-append a b d one two first second =
    let fuel : ℕ = suc (length (d.buffer ++ (a ++ b))) in
    let (r, whole) = loop-Ends fuel (extend (a ++ b) d) (omega arith) in
    let joined : extend b (extend a d) ≡ extend (a ++ b) d =
      ap (λ (buffer : List ℕ). record d { buffer = buffer }) (append_assoc d.buffer a b) in
    let same : r ≡ (two.0, one.1 ++ two.1) =
      loop-chunks (suc (length (d.buffer ++ a))) (suc (length (one.0.buffer ++ b))) fuel b
        (extend a d) one two r first second (rw joined whole) in
    whole ∙ ap some same
