-- ===== src/XAir/Paired.antt =====
-- The pairs that `XAirBimanualAssembler.accept` returns.
use vlai_l1_runtime.Prelude.{
  ℕ, ◌+◌, ◌≤◌, ◌<◌, ◌≡◌, ◌⊎◌, refl, ap₂, subst, String, false, Option, none, some, List, ◌++◌, map,
  inl, inr, arith, Option-cases,
}
use vlai_l1_runtime.Prelude.Result.{ok, Result-cases}
use vlai_l1_runtime.Prelude.Value.{Floats}
use vlai_l1_runtime.Contracts.{feature_names, side_features}
use vlai_l1_runtime.Contracts.Entries.{AllFrom}
use vlai_l1_runtime.XAir.Packet.{Side, left, right, XAirStatePacket}
use vlai_l1_runtime.XAir.Assembler.{
  get, Bimanual, not_above, later, named, Pair, assembled, store, taken, try_pair, accept,
}
use vlai_l1_runtime.XAir.Laws.{beside, named-beside, IsVector, vectors-IsVector, vectors-AllFrom}

-- There is no number yet, or it is below `n`.
abbrev pub New : Option ℕ → ℕ → Type 0
New none n = Unit {0}
New (some a) n = a < n

-- The packet is of the left side: it is the left half of the pair, the right half is the one that
-- the assembler had, and it is the first of its side or has a larger number than the one before.
pub record FromLeft (p l r : XAirStatePacket) (s s' : Bimanual) : Type 0 where
  pub side : p.side ≡ left
  pub own : l ≡ p
  pub held : s.latest.at_right ≡ some r
  pub new : New s.last_received.at_left p.source_sequence
  pub received :
      s'.last_received
      ≡ record { at_left = some p.source_sequence; at_right = s.last_received.at_right }

pub record FromRight (p l r : XAirStatePacket) (s s' : Bimanual) : Type 0 where
  pub side : p.side ≡ right
  pub own : r ≡ p
  pub held : s.latest.at_left ≡ some l
  pub new : New s.last_received.at_right p.source_sequence
  pub received :
      s'.last_received
      ≡ record { at_left = s.last_received.at_left; at_right = some p.source_sequence }

Side-cases : (side : Side) → (side ≡ left) ⊎ (side ≡ right)
Side-cases left = inl refl
Side-cases right = inr refl

stored_cases :
    (p l r : XAirStatePacket) (s s' : Bimanual)
    → not_above p.source_sequence (get p.side s.last_received) ≡ false
    → (store p s).latest.at_left ≡ some l
    → (store p s).latest.at_right ≡ some r
    → s'.last_received ≡ (store p s).last_received
    → FromLeft p l r s s' ⊎ FromRight p l r s s'
unfolding store
stored_cases p l r s s' new has_left has_right kept = elim (Side-cases p.side) [
  | inl e ↦ inl (record {
    side = e;
    own = ground (arith, e, has_left);
    held = ground (arith, e, has_right);
    new = ground (arith, e, new);
    received = ground (arith, e, kept);
  })
  | inr e ↦ inr (record {
    side = e;
    own = ground (arith, e, has_right);
    held = ground (arith, e, has_left);
    new = ground (arith, e, new);
    received = ground (arith, e, kept);
  })
]

module _ {F : Type 0} where
  -- The left side's names beside the one side's values, and the right side's beside the other's.
  abbrev pub sides_beside : List F → List F → List (String × F)
  sides_beside l r = beside (side_features "left") l ++ beside (side_features "right") r

  sides_named :
      (degrees : ℕ → F) (l r : List ℕ)
      → named degrees (side_features "left") l ++ named degrees (side_features "right") r
        ≡ sides_beside (map degrees l) (map degrees r)
  sides_named degrees l r =
      ap₂ (λ a b. a ++ b) (named-beside degrees (side_features "left") l)
        (named-beside degrees (side_features "right") r)

module _ (fl : Floats) (degrees : ℕ → fl.F) where
  open fl use {F}

  -- What a pair that the assembler returns was made of, and what it leaves.
  pub record IsPaired (p : XAirStatePacket) (s : Bimanual) (pair : Pair F) : Type 0 where
    pub l : XAirStatePacket
    pub r : XAirStatePacket
    pub time : ℕ
    pub from :
        FromLeft p l r s (accept fl degrees p s).1 ⊎ FromRight p l r s (accept fl degrees p s).1
    pub new_left : New s.last_emitted.at_left l.source_sequence
    pub new_right : New s.last_emitted.at_right r.source_sequence
    pub close_left : l.monotonic_ns ≤ r.monotonic_ns + s.max_side_skew_ns
    pub close_right : r.monotonic_ns ≤ l.monotonic_ns + s.max_side_skew_ns
    pub follower :
        AllFrom
          (sides_beside (map degrees l.follower_radians) (map degrees r.follower_radians))
          pair.0.values
    pub leader :
        AllFrom
          (sides_beside (map degrees l.leader_radians) (map degrees r.leader_radians))
          pair.1.values
    pub from_left : l.monotonic_ns ≤ time
    pub from_right : r.monotonic_ns ≤ time
    pub from_one : (time ≡ l.monotonic_ns) ⊎ (time ≡ r.monotonic_ns)
    pub observation : IsVector s.output_sequence time feature_names pair.0
    pub action : IsVector s.output_sequence time feature_names pair.1
    pub latest : (accept fl degrees p s).1.latest ≡ record { at_left = some l; at_right = some r }
    pub emitted :
        (accept fl degrees p s).1.last_emitted
        ≡ record { at_left = some l.source_sequence; at_right = some r.source_sequence }
    pub counted : (accept fl degrees p s).1.output_sequence ≡ s.output_sequence + 1
    pub limit_kept : (accept fl degrees p s).1.max_side_skew_ns ≡ s.max_side_skew_ns

  assembled-AllFrom :
      (l r : XAirStatePacket) (sequence : ℕ) (pair : Pair F)
      → assembled fl degrees l r sequence ≡ ok pair
      → AllFrom
          (sides_beside (map degrees l.follower_radians) (map degrees r.follower_radians))
          pair.0.values
        × AllFrom
            (sides_beside (map degrees l.leader_radians) (map degrees r.leader_radians))
            pair.1.values
  unfolding assembled
  assembled-AllFrom l r sequence pair h =
      let (observed, acted) = vectors-AllFrom fl degrees _ _ sequence _ feature_names pair h in
      (
        subst (λ values. AllFrom values pair.0.values)
            (sides_named degrees l.follower_radians r.follower_radians) observed,
        subst (λ values. AllFrom values pair.1.values)
            (sides_named degrees l.leader_radians r.leader_radians) acted,
      )

  assembled-IsVector :
      (l r : XAirStatePacket) (sequence : ℕ) (pair : Pair F)
      → assembled fl degrees l r sequence ≡ ok pair
      → IsVector sequence (later l.monotonic_ns r.monotonic_ns) feature_names pair.0
        × IsVector sequence (later l.monotonic_ns r.monotonic_ns) feature_names pair.1
  unfolding assembled
  assembled-IsVector l r sequence pair h =
      vectors-IsVector fl degrees _ _ sequence _ feature_names pair h

  later_one : (a b : ℕ) → (later a b ≡ a) ⊎ (later a b ≡ b)
  later_one a b = ground arith

  -- The conditions under which a pair is returned, and the state behind it, by the code's own steps.
  accept-taken :
      (p : XAirStatePacket) (s : Bimanual) (pair : Pair F)
      → (accept fl degrees p s).0 ≡ ok (some pair)
      → (l : XAirStatePacket) × (r : XAirStatePacket) × (not_above p.source_sequence
            (get p.side s.last_received)
          ≡ false)
        × ((store p s).latest.at_left ≡ some l)
        × ((store p s).latest.at_right ≡ some r)
        × (not_above l.source_sequence s.last_emitted.at_left ≡ false)
        × (not_above r.source_sequence s.last_emitted.at_right ≡ false)
        × (l.monotonic_ns ≤ r.monotonic_ns + s.max_side_skew_ns)
        × (r.monotonic_ns ≤ l.monotonic_ns + s.max_side_skew_ns)
        × (assembled fl degrees l r s.output_sequence ≡ ok pair)
        × ((accept fl degrees p s).1 ≡ taken l r (store p s))
  unfolding accept try_pair store
  accept-taken p s pair h = elim (Option-cases (store p s).latest.at_left) [
    | inl no_left ↦ absurd (ground (arith, no_left))
    | inr (l, has_left) ↦ elim (Option-cases (store p s).latest.at_right) [
      | inl no_right ↦ absurd (ground (arith, has_left, no_right))
      | inr (r, has_right) ↦ elim (Result-cases (assembled fl degrees l r s.output_sequence)) [
        | inl (q, made) ↦
            let same : q ≡ pair = ground (arith, has_left, has_right, made) in
            let made_pair : assembled fl degrees l r s.output_sequence ≡ ok pair = cc in
            (
              l,
              r,
              ground (arith, has_left, has_right),
              has_left,
              has_right,
              ground (arith, has_left, has_right),
              ground (arith, has_left, has_right),
              ground (arith, has_left, has_right),
              ground (arith, has_left, has_right),
              made_pair,
              ground (arith, has_left, has_right),
            )
        | inr (e, failed) ↦ absurd (ground (arith, has_left, has_right, failed))
      ]
    ]
  ]

  -- A pair that `XAirBimanualAssembler.accept` returns is made of the packet and the latest one of
  -- the other side: both newer than their side's packet in the last pair, their times within the
  -- skew limit. The observation has the followers' positions and the action the leaders', in
  -- degrees, each under the name of its side and motor, with the next output number and the later of
  -- the two times. The assembler then counts both packets as used and keeps them as the latest.
  pub accept-IsPaired :
      (p : XAirStatePacket) (s : Bimanual) (pair : Pair F)
      → (accept fl degrees p s).0 ≡ ok (some pair)
      → IsPaired p s pair
  unfolding store taken
  accept-IsPaired p s pair h =
      let (
        l, r, new, has_left, has_right, new_left, new_right, close_left, close_right, made, after,
      ) =
        accept-taken p s pair h in
      let (follower, leader) = assembled-AllFrom l r s.output_sequence pair made in
      let (observation, action) = assembled-IsVector l r s.output_sequence pair made in
      record {
        l = l;
        r = r;
        time = later l.monotonic_ns r.monotonic_ns;
        from = stored_cases p l r s _ new has_left has_right (rw after refl);
        new_left = ground (arith, new_left);
        new_right = ground (arith, new_right);
        close_left = close_left;
        close_right = close_right;
        follower = follower;
        leader = leader;
        from_left = ground arith;
        from_right = ground arith;
        from_one = later_one l.monotonic_ns r.monotonic_ns;
        observation = observation;
        action = action;
        latest = ground (arith, after, has_left, has_right);
        emitted = rw after refl;
        counted = rw after refl;
        limit_kept = rw after refl;
      }
