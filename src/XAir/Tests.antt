-- ===== src/XAir/Tests.antt =====
-- Packets of both sides at rest, their pair, and a queue of two pairs.
use vlai_l1_runtime.Prelude.{
  ℕ, zero, suc, true, false, ◌≡◌, refl, none, some, List, [], ◌∷◌, ◌++◌, map,
}
use vlai_l1_runtime.Prelude.Result.{ok}
use vlai_l1_runtime.Prelude.Bytes.{to_little}
use vlai_l1_runtime.Prelude.Naturals.{naturals}
use vlai_l1_runtime.Contracts.{
  NamedJointVector, feature_names, side_features, make_named_joint_vector, validate_feature_names,
  validate_named_values, as_mapping,
}
use vlai_l1_runtime.XAir.Packet.{
  XAirStatePacket, Side, left, right, decode, decode_fields, make_state_packet,
}
use vlai_l1_runtime.XAir.Assembler.{
  Bimanual, SingleSide, Pair, not_above, accept, try_pair, assembled, vectors, store, taken,
  accept_single, single_pair,
}
use vlai_l1_runtime.XAir.Receiver.{new_assembler, closest, take_packet}
use vlai_l1_runtime.XAir.Laws.{IsSide, accept_single_exact}
use vlai_l1_runtime.XAir.Paired.{IsPaired, accept-IsPaired}
use vlai_l1_runtime.XAir.Order.{Ascends, pairs, pairs-Ascends}
use vlai_l1_runtime.XAir.Closest.{In, NoneCloser, candidates, closest-IsClosest}

abbrev bits : ℕ → ℕ
bits n = n

abbrev zeros : ℕ → List ℕ
zeros zero = []
zeros (suc n) = 0 ∷ zeros n

abbrev packet : Side → (sequence time : ℕ) → XAirStatePacket
packet side sequence time = record {
  side = side;
  source_sequence = sequence;
  monotonic_ns = time;
  leader_radians = zeros 8;
  follower_radians = zeros 8;
}

abbrev new : Bimanual
new = record {
  max_side_skew_ns = 10;
  latest = record { at_left = none; at_right = none };
  last_received = record { at_left = none; at_right = none };
  last_emitted = record { at_left = none; at_right = none };
  output_sequence = 0;
}

abbrev half : Bimanual
half = record new {
  latest = record { at_left = some (packet left 1 100); at_right = none };
  last_received = record { at_left = some 1; at_right = none };
}

abbrev still : (sequence time : ℕ) → NamedJointVector ℕ
still sequence time = record {
  values = map (λ name. (name, 0)) feature_names;
  metadata = record { source_sequence = sequence; monotonic_ns = time };
  feature_names = feature_names;
}

half-paired :
    (accept naturals bits (packet right 4 105) half).0 ≡ ok (some (still 0 105, still 0 105))
unfolding accept try_pair store taken assembled vectors make_named_joint_vector
    validate_feature_names validate_named_values as_mapping feature_names closest take_packet decode
    decode_fields make_state_packet
half-paired = refl

accept-IsPaired_example :
    IsPaired naturals bits (packet right 4 105) half (still 0 105, still 0 105)
accept-IsPaired_example =
    accept-IsPaired naturals bits (packet right 4 105) half (still 0 105, still 0 105) half-paired

abbrev packets : List XAirStatePacket
packets =
    packet left 1 100
    ∷ packet right 4 105
    ∷ packet right 5 115
    ∷ packet left 1 110
    ∷ packet left 2 120
    ∷ []

pairs-Ascends_example : Ascends 0 new.last_emitted (pairs naturals bits packets new)
pairs-Ascends_example = pairs-Ascends naturals bits packets new

abbrev single : SingleSide
single = record { side = left; last_single = some 3; output_number = 2 }

accept_single_exact_example :
    (left ≡ left
      → not_above 4 (some 3) ≡ false
      → ((accept_single naturals bits (packet left 4 50) single).1
          ≡ record single { last_single = some 4; output_number = 3 })
        × ((pair : Pair ℕ)
            → (accept_single naturals bits (packet left 4 50) single).0 ≡ ok (some pair)
            → IsSide naturals bits single 50 (zeros 8) pair.0
              × IsSide naturals bits single 50 (zeros 8) pair.1))
    × (¬ (left ≡ left) → accept_single naturals bits (packet left 4 50) single ≡ (ok none, single))
    × (not_above 4 (some 3) ≡ true
        → ((accept_single naturals bits (packet left 4 50) single).1 ≡ single)
          × ((pair : Pair ℕ)
              → ¬ ((accept_single naturals bits (packet left 4 50) single).0 ≡ ok (some pair))))
accept_single_exact_example = accept_single_exact naturals bits (packet left 4 50) single

abbrev payload : (side sequence time : ℕ) → List ℕ
payload side sequence time =
    86 ∷ 76 ∷ 49 ∷ 83 ∷ 1 ∷ 0 ∷ side ∷ 0 ∷ (to_little 8 sequence ++ to_little 8 time ++ zeros 128)

-- Pairs at 105 and at 205.
abbrev queue : List (List ℕ)
queue = payload 0 1 100 ∷ payload 1 1 105 ∷ payload 0 2 200 ∷ payload 1 2 205 ∷ []

abbrev second_pair : Pair ℕ
second_pair = (still 1 205, still 1 205)

queue-read :
    (closest naturals bits 190 none queue (new_assembler 10 (left ∷ right ∷ []))).0
    ≡ ok (some second_pair)
unfolding accept try_pair store taken assembled vectors make_named_joint_vector
    validate_feature_names validate_named_values as_mapping feature_names closest take_packet decode
    decode_fields make_state_packet new_assembler
queue-read = refl

abbrev half_pose : (sequence time : ℕ) → NamedJointVector ℕ
half_pose sequence time = record {
  values = map (λ name. (name, 0)) (side_features "right");
  metadata = record { source_sequence = sequence; monotonic_ns = time };
  feature_names = side_features "right";
}

-- With the right side alone, its packet at 205 is an output of its own, and the closest to 190.
one_side-read :
    (closest naturals bits 190 none queue (new_assembler 10 (right ∷ []))).0
    ≡ ok (some (half_pose 1 205, half_pose 1 205))
unfolding accept_single single_pair vectors make_named_joint_vector validate_feature_names
    validate_named_values as_mapping feature_names closest take_packet decode decode_fields
    make_state_packet new_assembler
one_side-read = refl

closest-IsClosest_example :
    ((best : Pair ℕ)
      → some second_pair ≡ some best
      → In best (candidates naturals bits queue (new_assembler 10 (left ∷ right ∷ [])))
        × NoneCloser 190 best
            (candidates naturals bits queue (new_assembler 10 (left ∷ right ∷ []))))
    × (some second_pair ≡ none
        → candidates naturals bits queue (new_assembler 10 (left ∷ right ∷ [])) ≡ [])
closest-IsClosest_example =
    closest-IsClosest naturals bits 190 queue (new_assembler 10 (left ∷ right ∷ []))
      (some second_pair) queue-read
