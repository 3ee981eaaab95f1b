-- ===== src/XAir/Assembler.antt =====
-- `XAirBimanualAssembler` and `XAirSingleSideAssembler`.
use vlai_l1_runtime.Prelude.{
  ℕ, ◌+◌, ◌-◌, String, Bool, false, not, ◌||◌, Option, none, some, List, [], ◌∷◌, ◌++◌, ltb, leb,
  if◌then◌else◌,
}
use vlai_l1_runtime.Prelude.Int.{pos}
use vlai_l1_runtime.Prelude.Result.{Result, ok, err}
use vlai_l1_runtime.Prelude.Exec.{Exec}
use vlai_l1_runtime.Prelude.Value.{Floats, int, instance_of}
use vlai_l1_runtime.Contracts.{
  Raised, NamedJointVector, feature_names, side_features, as_mapping, make_named_joint_vector,
}
use vlai_l1_runtime.XAir.Packet.{
  XAirError, not_increasing, skew_exceeded, bad_vector, Side, left, right, side_eq, side_name,
  XAirStatePacket,
}

-- A dictionary whose keys are the two sides.
pub record BySide (A : Type 0) : Type 0 where
  pub at_left : Option A
  pub at_right : Option A

abbrev pub get : {A : Type 0} → Side → BySide A → Option A
get left d = d.at_left
get right d = d.at_right

abbrev pub put : {A : Type 0} → Side → A → BySide A → BySide A
put left a d = record d { at_left = some a }
put right a d = record d { at_right = some a }

pub record Bimanual : Type 0 where
  pub max_side_skew_ns : ℕ
  pub latest : BySide XAirStatePacket
  pub last_received : BySide ℕ
  pub last_emitted : BySide ℕ
  pub output_sequence : ℕ

pub record SingleSide : Type 0 where
  pub side : Side
  pub last_single : Option ℕ
  pub output_number : ℕ

-- `x <= previous`, where there is a previous one
abbrev pub not_above : ℕ → Option ℕ → Bool
not_above n none = false
not_above n (some previous) = leb n previous

abbrev pub later : ℕ → ℕ → ℕ
later a b = if ltb a b then b else a

abbrev pub earlier : ℕ → ℕ → ℕ
earlier a b = if ltb b a then b else a

module _ {F : Type 0} (degrees : ℕ → F) where
  -- `zip(MOTOR_NAMES, ...)`, of eight names and eight positions
  abbrev pub named : List String → List ℕ → List (String × F)
  named [] radians = []
  named (name ∷ names) [] = []
  named (name ∷ names) (r ∷ radians) = (name, degrees r) ∷ named names radians

  abbrev pub side_values : Side → List ℕ → List (String × F)
  side_values side radians = named (side_features (side_name side)) radians

-- An observation and an action.
abbrev pub Pair : Type 0 → Type 0
Pair F = NamedJointVector F × NamedJointVector F

-- The state after the packet is stored.
unfoldable pub store : XAirStatePacket → Bimanual → Bimanual
store p s = record s {
  last_received = put p.side p.source_sequence s.last_received;
  latest = put p.side p s.latest;
}

-- The state after a pair is taken.
unfoldable pub taken : XAirStatePacket → XAirStatePacket → Bimanual → Bimanual
taken l r s = record s {
  last_emitted = record { at_left = some l.source_sequence; at_right = some r.source_sequence };
  output_sequence = s.output_sequence + 1;
}

-- `degrees` is `math.degrees` on the bits of a double.
module _ (fl : Floats) (degrees : ℕ → fl.F) where
  open fl use {F}

  abbrev pub vector :
      List (String × F) → (sequence time : ℕ) → List String → Result Raised (NamedJointVector F)
  vector values sequence time names = make_named_joint_vector fl (record {
    values = as_mapping values;
    metadata =
        instance_of
          (record { source_sequence = int (pos sequence); monotonic_ns = int (pos time) });
    feature_names = names;
  })

  abbrev both :
      Result Raised (NamedJointVector F)
      → Result Raised (NamedJointVector F)
      → Result XAirError (Pair F)
  both (err e) action = err (bad_vector e)
  both (ok o) (err e) = err (bad_vector e)
  both (ok o) (ok a) = ok (o, a)

  -- The two vectors that are returned; either constructor may raise.
  unfoldable pub vectors :
      (observation action : List (String × F))
      → (sequence time : ℕ) → List String
      → Result XAirError (Pair F)
  vectors observation action sequence time names =
      both (vector observation sequence time names) (vector action sequence time names)

  abbrev emitted : Result XAirError (Pair F) → Result XAirError (Option (Pair F))
  emitted (ok p) = ok (some p)
  emitted (err e) = err e

  -- What `accept` returns when it takes a pair.
  unfoldable pub assembled : XAirStatePacket → XAirStatePacket → ℕ → Result XAirError (Pair F)
  assembled l r sequence =
      vectors
        (side_values degrees left l.follower_radians
          ++ side_values degrees right r.follower_radians)
        (side_values degrees left l.leader_radians ++ side_values degrees right r.leader_radians)
        sequence (later l.monotonic_ns r.monotonic_ns) feature_names

  -- The part of `accept` behind the assignments, with both sides there.
  unfoldable pub try_pair :
      XAirStatePacket → XAirStatePacket → Exec Bimanual XAirError (Option (Pair F))
  unfolding assembled taken
  try_pair l r s =
      if not_above l.source_sequence s.last_emitted.at_left
        || not_above r.source_sequence s.last_emitted.at_right
      then (ok none, s)
      else if ltb s.max_side_skew_ns
          (later l.monotonic_ns r.monotonic_ns - earlier l.monotonic_ns r.monotonic_ns)
      then (err skew_exceeded, s)
      else (emitted (assembled l r s.output_sequence), taken l r s)

  abbrev if_both :
      Option XAirStatePacket → Option XAirStatePacket → Exec Bimanual XAirError (Option (Pair F))
  if_both (some l) (some r) s = try_pair l r s
  if_both _ _ s = (ok none, s)

  -- `XAirBimanualAssembler.accept`
  unfoldable pub accept : XAirStatePacket → Exec Bimanual XAirError (Option (Pair F))
  unfolding try_pair store
  accept p s =
      if not_above p.source_sequence (get p.side s.last_received)
      then (err not_increasing, s)
      else if_both (store p s).latest.at_left (store p s).latest.at_right (store p s)

  -- The pair of one side's packet.
  unfoldable pub single_pair : XAirStatePacket → SingleSide → Result XAirError (Pair F)
  unfolding vectors
  single_pair p s =
      vectors (side_values degrees p.side p.follower_radians)
        (side_values degrees p.side p.leader_radians) s.output_number p.monotonic_ns
        (side_features (side_name s.side))

  -- `XAirSingleSideAssembler.accept`
  unfoldable pub accept_single : XAirStatePacket → Exec SingleSide XAirError (Option (Pair F))
  accept_single p s =
      if not (side_eq p.side s.side)
      then (ok none, s)
      else if not_above p.source_sequence s.last_single
      then (err not_increasing, s)
      else (
        emitted (single_pair p s),
        record s { last_single = some p.source_sequence; output_number = s.output_number + 1 },
      )
