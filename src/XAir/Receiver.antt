-- ===== src/XAir/Receiver.antt =====
-- `XAirStateReceiver`: its assembler, and `receive_closest` over the packets that wait in the socket.
use vlai_l1_runtime.Prelude.{
  ℕ, ◌+◌, ◌-◌, Bool, ◌&&◌, ◌||◌, Option, none, some, List, [], ◌∷◌, ltb, ◌==◌, if◌then◌else◌,
}
use vlai_l1_runtime.Prelude.Result.{Result, ok, err}
use vlai_l1_runtime.Prelude.Exec.{Exec}
use vlai_l1_runtime.Prelude.Value.{Floats}
use vlai_l1_runtime.XAir.Packet.{XAirError, Side, XAirStatePacket, decode}
use vlai_l1_runtime.XAir.Assembler.{Bimanual, SingleSide, Pair, accept, accept_single}

abbrev pub time_of : {F : Type 0} → Pair F → ℕ
time_of p = p.0.metadata.monotonic_ns

abbrev pub gap : ℕ → ℕ → ℕ
gap target t = (t - target) + (target - t)

-- `key < closest_key`, of the distances and the negated times
abbrev pub closer : ℕ → ℕ → ℕ → Bool
closer target t best =
    ltb (gap target t) (gap target best) || (gap target t == gap target best) && ltb best t

abbrev pub better : {F : Type 0} → ℕ → Option (Pair F) → Option (Pair F) → Option (Pair F)
better target none best = best
better target (some c) none = some c
better target (some c) (some best) =
    if closer target (time_of c) (time_of best) then some c else some best

-- `XAirBimanualAssembler | XAirSingleSideAssembler`
pub data Assembler : Type 0 where
  both_sides : Bimanual → Assembler
  one_side : SingleSide → Assembler

-- `_new_assembler`, with the constructors of the two; the skew limit is in nanoseconds.
unfoldable pub new_assembler : (max_side_skew_ns : ℕ) → List Side → Assembler
new_assembler max_side_skew_ns (side ∷ []) =
    one_side (record { side = side; last_single = none; output_number = 0 })
new_assembler max_side_skew_ns _ = both_sides (record {
  max_side_skew_ns = max_side_skew_ns;
  latest = record { at_left = none; at_right = none };
  last_received = record { at_left = none; at_right = none };
  last_emitted = record { at_left = none; at_right = none };
  output_sequence = 0;
})

module _ (fl : Floats) (degrees : ℕ → fl.F) where
  open fl use {F}

  -- `self._assembler.accept`
  unfoldable pub accept_by : XAirStatePacket → Exec Assembler XAirError (Option (Pair F))
  accept_by p (both_sides s) = ((accept fl degrees p s).0, both_sides (accept fl degrees p s).1)
  accept_by p (one_side s) =
      ((accept_single fl degrees p s).0, one_side (accept_single fl degrees p s).1)

  abbrev accept_decoded :
      Result XAirError XAirStatePacket → Exec Assembler XAirError (Option (Pair F))
  accept_decoded (err e) s = (err e, s)
  accept_decoded (ok p) s = accept_by p s

  -- One turn of the loop: `receive_packet` and `accept`.
  unfoldable pub take_packet : List ℕ → Exec Assembler XAirError (Option (Pair F))
  unfolding accept_by
  take_packet payload s = accept_decoded (decode payload) s

  -- The loop over the queue, from the closest pair so far. `none` at its end is where the source
  -- goes on to wait for the next pair.
  unfoldable pub closest :
      ℕ → Option (Pair F) → List (List ℕ) → Exec Assembler XAirError (Option (Pair F))
  unfolding take_packet
  closest target best [] s = (ok best, s)
  closest target best (payload ∷ queue) s = elim (take_packet payload s).0 [
    | err e ↦ (err e, (take_packet payload s).1)
    | ok candidate ↦ closest target (better target candidate best) queue (take_packet payload s).1
  ]
