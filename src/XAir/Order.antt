-- ===== src/XAir/Order.antt =====
-- No packet is used in two pairs, and the outputs are numbered upward.
use vlai_l1_runtime.Prelude.{
  ℕ, suc, ◌+◌, ◌≤◌, ◌<◌, ◌≡◌, Option, none, some, List, [], ◌∷◌, inl, inr, arith, Option-cases,
}
use vlai_l1_runtime.Prelude.Result.{Result, ok, Result-cases}
use vlai_l1_runtime.Prelude.Value.{Floats}
use vlai_l1_runtime.XAir.Packet.{XAirError, XAirStatePacket}
use vlai_l1_runtime.XAir.Assembler.{BySide, Bimanual, Pair, store, taken, try_pair, accept}
use vlai_l1_runtime.XAir.Paired.{accept-IsPaired}

-- There is a number now, and it is larger than the one before, if there was one.
abbrev pub Above : Option ℕ → Option ℕ → Type 0
Above _ none = ⊥
Above none (some b) = Unit {0}
Above (some a) (some b) = a < b

abbrev AtMost : Option ℕ → Option ℕ → Type 0
AtMost none _ = Unit {0}
AtMost (some a) none = ⊥
AtMost (some a) (some b) = a ≤ b

abbrev pub BothAbove : BySide ℕ → BySide ℕ → Type 0
BothAbove a b = Above a.at_left b.at_left × Above a.at_right b.at_right

abbrev BothAtMost : BySide ℕ → BySide ℕ → Type 0
BothAtMost a b = AtMost a.at_left b.at_left × AtMost a.at_right b.at_right

AtMost-refl : (a : Option ℕ) → AtMost a a
AtMost-refl a = ground arith

AtMost-trans : (a b c : Option ℕ) → AtMost a b → AtMost b c → AtMost a c
AtMost-trans a b c h k = ground arith

Above-weaken : (a b c : Option ℕ) → AtMost a b → Above b c → Above a c
Above-weaken a b c h k = ground arith

BothAtMost-refl : (a : BySide ℕ) → BothAtMost a a
BothAtMost-refl a = (AtMost-refl a.at_left, AtMost-refl a.at_right)

BothAtMost-trans : (a b c : BySide ℕ) → BothAtMost a b → BothAtMost b c → BothAtMost a c
BothAtMost-trans a b c h k = (
  AtMost-trans a.at_left b.at_left c.at_left h.0 k.0,
  AtMost-trans a.at_right b.at_right c.at_right h.1 k.1,
)

BothAbove-weaken : (a b c : BySide ℕ) → BothAtMost a b → BothAbove b c → BothAbove a c
BothAbove-weaken a b c h k = (
  Above-weaken a.at_left b.at_left c.at_left h.0 k.0,
  Above-weaken a.at_right b.at_right c.at_right h.1 k.1,
)

module _ {F : Type 0} where
  -- Pairs, each with the numbers of the two packets that it was made of: each output number is at
  -- least `n` and above those before it, and each packet is newer than the one used before it.
  abbrev pub Ascends : ℕ → BySide ℕ → List (Pair F × BySide ℕ) → Type 0
  Ascends n used [] = Unit {0}
  Ascends n used ((pair, packets) ∷ rest) =
      (n ≤ pair.0.metadata.source_sequence)
      × BothAbove used packets
      × Ascends (suc pair.0.metadata.source_sequence) packets rest

  abbrev noted :
      Result XAirError (Option (Pair F))
      → BySide ℕ
      → List (Pair F × BySide ℕ)
      → List (Pair F × BySide ℕ)
  noted (ok (some pair)) packets rest = (pair, packets) ∷ rest
  noted _ packets rest = rest

module _ (fl : Floats) (degrees : ℕ → fl.F) where
  open fl use {F}

  -- The pairs that a sequence of packets gives, each call's exception caught.
  unfoldable pub pairs : List XAirStatePacket → Bimanual → List (Pair F × BySide ℕ)
  pairs [] s = []
  pairs (p ∷ packets) s =
      noted (accept fl degrees p s).0 (accept fl degrees p s).1.last_emitted
        (pairs packets (accept fl degrees p s).1)

  try_pair_forward :
      (l r : XAirStatePacket) (s : Bimanual)
      → BothAtMost s.last_emitted (try_pair fl degrees l r s).1.last_emitted
        × (s.output_sequence ≤ (try_pair fl degrees l r s).1.output_sequence)
  unfolding try_pair
  try_pair_forward l r s = ground arith

  -- A call never goes back, whatever it returns.
  accept_forward :
      (p : XAirStatePacket) (s : Bimanual)
      → BothAtMost s.last_emitted (accept fl degrees p s).1.last_emitted
        × (s.output_sequence ≤ (accept fl degrees p s).1.output_sequence)
  unfolding accept store
  accept_forward p s = elim (Option-cases (store p s).latest.at_left) [
    | inl no_left ↦ ground (arith, no_left)
    | inr (l, has_left) ↦ elim (Option-cases (store p s).latest.at_right) [
      | inl no_right ↦ ground (arith, has_left, no_right)
      | inr (r, has_right) ↦ ground (arith, has_left, has_right, try_pair_forward l r (store p s))
    ]
  ]

  accept-BothAbove :
      (p : XAirStatePacket) (s : Bimanual) (pair : Pair F)
      → (accept fl degrees p s).0 ≡ ok (some pair)
      → (pair.0.metadata.source_sequence ≡ s.output_sequence)
        × BothAbove s.last_emitted (accept fl degrees p s).1.last_emitted
        × ((accept fl degrees p s).1.output_sequence ≡ s.output_sequence + 1)
  unfolding taken store
  accept-BothAbove p s pair h =
      let made = accept-IsPaired fl degrees p s pair h in
      (
        made.observation.sequence_kept,
        rw made.emitted (ground (arith, made.new_left, made.new_right)),
        made.counted,
      )

  pairs_from-Ascends :
      (packets : List XAirStatePacket) (s : Bimanual) (n : ℕ) (used : BySide ℕ)
      → n ≤ s.output_sequence
      → BothAtMost used s.last_emitted
      → Ascends n used (pairs packets s)
  unfolding pairs
  pairs_from-Ascends [] s n used low old = tt
  pairs_from-Ascends (p ∷ packets) s n used low old =
      let after : Bimanual = (accept fl degrees p s).1 in
      let (packets_on, outputs_on) = accept_forward p s in
      elim (Result-cases (accept fl degrees p s).0) [
        | inl (o, returned) ↦ elim (Option-cases o) [
          | inl nothing ↦
              rw (returned, nothing)
                (pairs_from-Ascends packets after n used (omega arith)
                  (BothAtMost-trans used s.last_emitted after.last_emitted old packets_on))
          | inr (pair, some_pair) ↦
              let (number, above, next) = accept-BothAbove p s pair (cc) in
              rw (returned, some_pair)
                (
                  omega arith,
                  BothAbove-weaken used s.last_emitted after.last_emitted old above,
                  pairs_from-Ascends packets after (suc pair.0.metadata.source_sequence)
                      after.last_emitted (omega arith) (BothAtMost-refl after.last_emitted),
                )
        ]
        | inr (e, raised) ↦ rw raised (
            pairs_from-Ascends packets after n used (omega arith)
              (BothAtMost-trans used s.last_emitted after.last_emitted old packets_on))
      ]

  -- Over any sequence of packets, refused ones included, the pairs that
  -- `XAirBimanualAssembler.accept` returns have strictly increasing output numbers, from the
  -- assembler's own on, and every packet in a pair is newer than its side's packet in the pair
  -- before, so that no packet is used twice.
  pub pairs-Ascends :
      (packets : List XAirStatePacket) (s : Bimanual)
      → Ascends s.output_sequence s.last_emitted (pairs packets s)
  pairs-Ascends packets s =
      pairs_from-Ascends packets s s.output_sequence s.last_emitted (omega arith)
        (BothAtMost-refl s.last_emitted)
