-- ===== src/CameraIpc/Answered.antt =====
-- What the server answers to a request.
use vlai_l1_runtime.Prelude.{
  ℕ, ◌-◌, ◌≤◌, ◌<◌, String, ◌≡◌, true, false, some, List, [], ◌∷◌, any, leb→le, subst, sym, inl,
  inr, ◌⊎◌, arith, Option-cases, All,
}
use vlai_l1_runtime.Prelude.Int.{ℤ, pos, negsuc}
use vlai_l1_runtime.Prelude.Result.{Result, ok, err, Result-cases}
use vlai_l1_runtime.Contracts.{lookup, keys, names_eq}
use vlai_l1_runtime.Cameras.Validator.{latest_of, earliest_of}
use vlai_l1_runtime.Collection.Images.{Images}
use vlai_l1_runtime.Collection.Sample.{CameraSample}
use vlai_l1_runtime.CameraIpc.Frames.{IpcError}
use vlai_l1_runtime.CameraIpc.Server.{
  Poll, Outcome, waiting, unchanged, changed, is_above, is_together, times_of, all_changed, turn,
  poll_loop,
}

is_together-le :
    (max_skew_ns : ℕ) (times : List ℕ)
    → is_together max_skew_ns times ≡ ok true
    → latest_of times - earliest_of times ≤ max_skew_ns
is_together-le max_skew_ns [] h = absurd (ground arith)
is_together-le max_skew_ns (t ∷ ts) h =
    leb→le (latest_of (t ∷ ts) - earliest_of (t ∷ ts)) max_skew_ns (ground arith)

-- The integer is less than the number.
abbrev pub IsBelow : ℤ → ℕ → Type 0
IsBelow (pos m) n = m < n
IsBelow (negsuc m) n = Unit {0}

is_above-IsBelow : (z : ℤ) (n : ℕ) → is_above z n ≡ true → IsBelow z n
is_above-IsBelow (pos m) n h = ground arith
is_above-IsBelow (negsuc m) n h = tt

module _ {im : Images} where
  -- Every role has a frame with a number past the one that the client named.
  abbrev pub AllPast : List (String × ℤ) → List (String × CameraSample im) → Type 0
  AllPast after samples =
      All
        (λ (entry : String × ℤ).
          (sample : CameraSample im) × (lookup entry.0 samples ≡ some sample)
          × IsBelow entry.1 sample.metadata.source_sequence)
        after

  all_changed-AllPast :
      (after : List (String × ℤ)) (samples : List (String × CameraSample im))
      → all_changed after samples ≡ true
      → AllPast after samples
  unfolding all_changed
  all_changed-AllPast [] samples h = tt
  all_changed-AllPast ((role, n) ∷ after) samples h = elim (Option-cases (lookup role samples)) [
    | inl nothing ↦ absurd (ground (arith, nothing))
    | inr (sample, found) ↦ (
      (sample, found, is_above-IsBelow n sample.metadata.source_sequence (ground (arith, found))),
      all_changed-AllPast after samples (ground (arith, found)),
    )
  ]

  -- Samples of exactly the roles, all new to the client and close to one another in time.
  pub record IsNews (roles : List String) (max_skew_ns : ℕ) (after : List (String × ℤ))
      (samples : List (String × CameraSample im)) : Type 0 where
    pub named : names_eq (keys samples) roles ≡ true
    pub past : AllPast after samples
    pub together : latest_of (times_of samples) - earliest_of (times_of samples) ≤ max_skew_ns

  -- `found` is a poll of the list, and no poll before it gave an answer.
  abbrev pub AnsweredBy :
      List String → ℕ → List (String × ℤ) → List (Poll im) → (Poll im → Type 0) → Type 0
  AnsweredBy roles max_skew_ns after [] P = ⊥
  AnsweredBy roles max_skew_ns after (poll ∷ polls) P =
      P poll
      ⊎ ((turn roles max_skew_ns after poll ≡ ok waiting)
          × AnsweredBy roles max_skew_ns after polls P)

  -- The three ways in which the loop ends, at a poll.
  abbrev pub Ends :
      List String → ℕ → List (String × ℤ) → List (Poll im) → Result IpcError (Outcome im) → Type 0
  Ends roles max_skew_ns after polls (err e) =
      AnsweredBy roles max_skew_ns after polls (λ poll. turn roles max_skew_ns after poll ≡ err e)
  Ends roles max_skew_ns after polls (ok waiting) = ⊥
  Ends roles max_skew_ns after polls (ok unchanged) =
      AnsweredBy roles max_skew_ns after polls (λ poll. poll.expired ≡ true)
  Ends roles max_skew_ns after polls (ok (changed samples)) =
      AnsweredBy roles max_skew_ns after polls
        (λ poll. (poll.samples ≡ samples) × IsNews roles max_skew_ns after samples)

  turn-changed :
      (roles : List String) (max_skew_ns : ℕ) (after : List (String × ℤ)) (poll : Poll im)
      (samples : List (String × CameraSample im))
      → turn roles max_skew_ns after poll ≡ ok (changed samples)
      → (poll.samples ≡ samples) × IsNews roles max_skew_ns after samples
  unfolding turn
  turn-changed roles max_skew_ns after poll samples h =
      elim (Result-cases (is_together max_skew_ns (times_of poll.samples))) [
        | inr (x, failed) ↦ absurd (ground (arith, failed))
        | inl (together, judged) ↦
            let same : poll.samples ≡ samples = ground (arith, judged) in
            (
              same,
              record {
                named = rw (← same) (ground (arith, judged));
                past = all_changed-AllPast after samples (rw (← same) (ground (arith, judged)));
                together =
                    subst
                      (λ set. latest_of (times_of set) - earliest_of (times_of set) ≤ max_skew_ns)
                      same
                      (is_together-le max_skew_ns (times_of poll.samples) (ground (arith, judged)));
              },
            )
      ]

  turn-unchanged :
      (roles : List String) (max_skew_ns : ℕ) (after : List (String × ℤ)) (poll : Poll im)
      → turn roles max_skew_ns after poll ≡ ok unchanged
      → poll.expired ≡ true
  unfolding turn
  turn-unchanged roles max_skew_ns after poll h = ground arith

  turn-waiting :
      (roles : List String) (max_skew_ns : ℕ) (after : List (String × ℤ)) (poll : Poll im)
      → turn roles max_skew_ns after poll ≡ ok waiting
      → poll.expired ≡ false
  unfolding turn
  turn-waiting roles max_skew_ns after poll h = ground arith

  Ends-later :
      (roles : List String) (max_skew_ns : ℕ) (after : List (String × ℤ)) (poll : Poll im)
      (polls : List (Poll im)) (r : Result IpcError (Outcome im))
      → turn roles max_skew_ns after poll ≡ ok waiting
      → Ends roles max_skew_ns after polls r
      → Ends roles max_skew_ns after (poll ∷ polls) r
  Ends-later roles max_skew_ns after poll polls (err e) h k = inr (h, k)
  Ends-later roles max_skew_ns after poll polls (ok waiting) h k = k
  Ends-later roles max_skew_ns after poll polls (ok unchanged) h k = inr (h, k)
  Ends-later roles max_skew_ns after poll polls (ok (changed samples)) h k = inr (h, k)

  -- If the deadline passes, the loop ends, at the first turn that gives an answer: with the samples
  -- of that turn, which are of exactly the roles, each past the number that the client named and
  -- all within the skew; with no change, at a turn behind the deadline; or with the error of the turn.
  pub poll_loop-Ends :
      (roles : List String) (max_skew_ns : ℕ) (after : List (String × ℤ)) (polls : List (Poll im))
      → any (λ (poll : Poll im). poll.expired) polls ≡ true
      → Ends roles max_skew_ns after polls (poll_loop roles max_skew_ns after polls)
  unfolding poll_loop
  poll_loop-Ends roles max_skew_ns after [] h = absurd (ground arith)
  poll_loop-Ends roles max_skew_ns after (poll ∷ polls) h =
      let whole = poll_loop roles max_skew_ns after (poll ∷ polls) in
      elim (Result-cases (turn roles max_skew_ns after poll)) [
        | inr (e, raised) ↦
            let done : whole ≡ err e = ground (arith, raised) in
            subst (λ r. Ends roles max_skew_ns after (poll ∷ polls) r) (sym done) (inl raised)
        | inl (unchanged, still) ↦
            let done : whole ≡ ok unchanged = ground (arith, still) in
            subst (λ r. Ends roles max_skew_ns after (poll ∷ polls) r) (sym done)
              (inl (turn-unchanged roles max_skew_ns after poll still))
        | inl (changed samples, found) ↦
            let done : whole ≡ ok (changed samples) = ground (arith, found) in
            subst (λ r. Ends roles max_skew_ns after (poll ∷ polls) r) (sym done)
              (inl (turn-changed roles max_skew_ns after poll samples found))
        | inl (waiting, waits) ↦
            let early = turn-waiting roles max_skew_ns after poll waits in
            let on : whole ≡ poll_loop roles max_skew_ns after polls = ground (arith, waits) in
            subst (λ r. Ends roles max_skew_ns after (poll ∷ polls) r) (sym on)
              (Ends-later roles max_skew_ns after poll polls
                (poll_loop roles max_skew_ns after polls) waits
                (poll_loop-Ends roles max_skew_ns after polls (ground (arith, early))))
      ]
