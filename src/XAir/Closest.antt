-- ===== src/XAir/Closest.antt =====
-- The pair that is chosen from the queue is the closest of those that it held.
use vlai_l1_runtime.Prelude.{
  ℕ, ◌+◌, ◌≤◌, ◌<◌, ◌≡◌, refl, ◌⊎◌, inl, inr, true, false, Option, none, some, List, [], ◌∷◌, arith,
  All, Option-cases, Bool-cases,
}
use vlai_l1_runtime.Prelude.Result.{ok, err, Result-cases}
use vlai_l1_runtime.Prelude.Value.{Floats}
use vlai_l1_runtime.XAir.Assembler.{Pair}
use vlai_l1_runtime.XAir.Receiver.{Assembler, time_of, gap, closer, better, take_packet, closest}

-- `a` is the distance of `t` from the target.
abbrev pub IsDistance : ℕ → ℕ → ℕ → Type 0
IsDistance target t a = ((target ≤ t) × (target + a ≡ t)) ⊎ ((t ≤ target) × (t + a ≡ target))

-- The time `best` is closer to the target than `t`, or as close and no earlier.
abbrev pub AsClose : (target best t : ℕ) → Type 0
AsClose target best t =
    (a : ℕ) × (b : ℕ) × IsDistance target best a
    × IsDistance target t b
    × ((a < b) ⊎ ((a ≡ b) × (t ≤ best)))

gap-IsDistance : (target t : ℕ) → IsDistance target t (gap target t)
gap-IsDistance target t = ground arith

closer-AsClose : (target best t : ℕ) → closer target t best ≡ false → AsClose target best t
closer-AsClose target best t h = (
  gap target best,
  gap target t,
  gap-IsDistance target best,
  gap-IsDistance target t,
  ground arith,
)

module _ {F : Type 0} where
  abbrev found : Option (Pair F) → List (Pair F) → List (Pair F)
  found none rest = rest
  found (some c) rest = c ∷ rest

  abbrev pub In : Pair F → List (Pair F) → Type 0
  In best [] = ⊥
  In best (c ∷ cs) = (c ≡ best) ⊎ In best cs

  abbrev NoneBefore : ℕ → Pair F → List (Pair F) → Type 0
  NoneBefore target best cs =
      All (λ (c : Pair F). closer target (time_of c) (time_of best) ≡ false) cs

  -- Each of the pairs is farther from the target than `best`, or as far and no later.
  abbrev pub NoneCloser : ℕ → Pair F → List (Pair F) → Type 0
  NoneCloser target best cs =
      All (λ (c : Pair F). AsClose target best.0.metadata.monotonic_ns c.0.metadata.monotonic_ns) cs

  abbrev choose : ℕ → Option (Pair F) → List (Pair F) → Option (Pair F)
  choose target best [] = best
  choose target best (c ∷ cs) = choose target (better target (some c) best) cs

closer_replaced :
    (target c old new : ℕ)
    → closer target c old ≡ false
    → closer target new old ≡ true
    → closer target c new ≡ false
closer_replaced target c old new h k = ground arith

closer_irrefl : (target c : ℕ) → closer target c c ≡ false
closer_irrefl target c = ground arith

closer_asym : (target c d : ℕ) → closer target c d ≡ true → closer target d c ≡ false
closer_asym target c d h = ground arith

module _ {F : Type 0} where
  -- Whatever is not closer than the pair in hand is not closer than the one that replaces it.
  choose_keeps :
      (target : ℕ) (b best : Pair F) (cs : List (Pair F))
      → choose target (some b) cs ≡ some best
      → ((c : ℕ) → closer target c (time_of b) ≡ false → closer target c (time_of best) ≡ false)
        × NoneBefore target best cs
        × ((b ≡ best) ⊎ In best cs)
  choose_keeps target b best [] h = ((λ c k. ground arith), tt, inl (ground arith))
  choose_keeps target b best (c ∷ cs) h =
      elim (Bool-cases (closer target (time_of c) (time_of b))) [
        | inl replaced ↦
            let (kept, none_closer, member) =
              choose_keeps target c best cs (ground (arith, replaced)) in
            (
              (λ d k. kept d (closer_replaced target d (time_of b) (time_of c) k replaced)),
              (kept (time_of c) (closer_irrefl target (time_of c)), none_closer),
              inr member,
            )
        | inr stays ↦
            let (kept, none_closer, member) =
              choose_keeps target b best cs (ground (arith, stays)) in
            (
              kept,
              (kept (time_of c) stays, none_closer),
              elim member [ inl same ↦ inl same | inr later ↦ inr (inr later) ],
            )
      ]

  choose-some :
      (target : ℕ) (b : Pair F) (cs : List (Pair F))
      → (best : Pair F) × (choose target (some b) cs ≡ some best)
  choose-some target b [] = (b, refl)
  choose-some target b (c ∷ cs) = elim (Bool-cases (closer target (time_of c) (time_of b))) [
    | inl replaced ↦ rw replaced (choose-some target c cs)
    | inr stays ↦ rw stays (choose-some target b cs)
  ]

  chosen_IsClosest :
      (target : ℕ) (cs : List (Pair F)) (r : Option (Pair F))
      → choose target none cs ≡ r
      → ((best : Pair F) → r ≡ some best → In best cs × NoneBefore target best cs)
        × (r ≡ none → cs ≡ [])
  chosen_IsClosest target [] r h = ((λ best e. absurd (ground arith)), λ e. refl)
  chosen_IsClosest target (c ∷ cs) r h = (
    (λ best e.
        let (kept, none_closer, member) = choose_keeps target c best cs (cc) in
        (member, (kept (time_of c) (closer_irrefl target (time_of c)), none_closer))),
    λ e. let (best, found_best) = choose-some target c cs in absurd (cc),
  )

module _ {F : Type 0} where
  NoneBefore-NoneCloser :
      (target : ℕ) (best : Pair F) (cs : List (Pair F))
      → NoneBefore target best cs
      → NoneCloser target best cs
  NoneBefore-NoneCloser target best [] h = tt
  NoneBefore-NoneCloser target best (c ∷ cs) h = (
    closer-AsClose target (time_of best) (time_of c) h.0,
    NoneBefore-NoneCloser target best cs h.1,
  )

module _ (fl : Floats) (degrees : ℕ → fl.F) where
  open fl use {F}

  -- The pairs that the packets in the queue complete, in order.
  unfoldable pub candidates : List (List ℕ) → Assembler → List (Pair F)
  candidates [] s = []
  candidates (payload ∷ queue) s =
      let rest = candidates queue (take_packet fl degrees payload s).1 in
      elim (take_packet fl degrees payload s).0 [ err e ↦ [] | ok candidate ↦ found candidate rest ]

  closest-choose :
      (target : ℕ) (b : Option (Pair F)) (queue : List (List ℕ)) (s : Assembler)
      (r : Option (Pair F))
      → (closest fl degrees target b queue s).0 ≡ ok r
      → choose target b (candidates queue s) ≡ r
  unfolding closest candidates
  closest-choose target b [] s r h = ground arith
  closest-choose target b (payload ∷ queue) s r h =
      elim (Result-cases (take_packet fl degrees payload s).0) [
        | inr (e, failed) ↦ absurd (ground (arith, failed))
        | inl (candidate, took) ↦ elim (Option-cases candidate) [
          | inl nothing ↦ ground (
            arith,
            took,
            nothing,
            closest-choose target b queue (take_packet fl degrees payload s).1 r,
          )
          | inr (c, some_pair) ↦ ground (
            arith,
            took,
            some_pair,
            closest-choose target (better target (some c) b) queue
                (take_packet fl degrees payload s).1 r,
          )
        ]
      ]

  -- When `receive_closest` reads its queue without an exception, whether it was set up for both
  -- sides or for one, the pair that it has at the end is one that the queue completed, and each of
  -- those is farther from the target time, or as far and no later; it has no pair only if the queue
  -- completed none.
  pub closest-IsClosest :
      (target : ℕ) (queue : List (List ℕ)) (s : Assembler) (r : Option (Pair F))
      → (closest fl degrees target none queue s).0 ≡ ok r
      → ((best : Pair F)
          → r ≡ some best
          → In best (candidates queue s) × NoneCloser target best (candidates queue s))
        × (r ≡ none → candidates queue s ≡ [])
  closest-IsClosest target queue s r h =
      let (chosen, nothing) =
        chosen_IsClosest target (candidates queue s) r (closest-choose target none queue s r h) in
      (
        (λ best e.
            let (member, before) = chosen best e in
            (member, NoneBefore-NoneCloser target best (candidates queue s) before)),
        nothing,
      )
