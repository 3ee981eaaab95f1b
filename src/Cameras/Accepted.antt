-- ===== src/Cameras/Accepted.antt =====
-- `validate`: what an accepted set of frames satisfies.
use vlai_l1_runtime.Prelude.{
  ℕ, ◌-◌, ◌≤◌, ◌<◌, String, ◌≡◌, refl, true, Option, none, some, List, [], ◌∷◌, inl, inr, ap, ap₂,
  map, eq_iff, arith, All, Option-cases,
}
use vlai_l1_runtime.Prelude.Result.{ok, Result-cases}
use vlai_l1_runtime.Prelude.Value.{Value, natural, Received}
use vlai_l1_runtime.Contracts.{subset, lookup, keys}
use vlai_l1_runtime.Cameras.Frames.{FrameFields, CameraFrameMetadata, snapshot_frame_metadata}
use vlai_l1_runtime.Cameras.Validator.{
  Continuity, Stream, Validator, FrameMapping, frames, not_frames, check_identity, check_continuity,
  check_frame, check_frames, frame_items, frame_times, latest_of, earliest_of, continuities,
  check_set, validate, declared,
}
use vlai_l1_runtime.Cameras.Skew.{WithinSkew, extremes-Between, WithinSkew_from}

pub record IsOwn (frame : CameraFrameMetadata) (stream : Stream) : Type 0 where
  pub role : frame.role ≡ stream.role
  pub device : stream.device_id ≡ some frame.device_id

-- Against the last accepted frame of the role, and the epoch that a reset has declared for it.
abbrev pub Follows : CameraFrameMetadata → Continuity → Option String → Type 0
Follows frame prior (some restarted_epoch) = frame.stream_epoch ≡ restarted_epoch
Follows frame prior none =
    (frame.stream_epoch ≡ prior.stream_epoch)
    × (prior.source_sequence < frame.source_sequence)
    × (prior.monotonic_ns < frame.monotonic_ns)

abbrev pub Continues :
    String
    → CameraFrameMetadata
    → Option (List (String × Continuity))
    → Option (List (String × String))
    → Type 0
Continues role frame none pending = Unit
Continues role frame (some previous) pending =
    (prior : Continuity) × (lookup role previous ≡ some prior)
    × Follows frame prior (declared role pending)

pub record IsAccepted (v : Validator) (now : ℕ) (entry : String × CameraFrameMetadata)
    : Type 0 where
  pub stream : Stream
  pub enabled : lookup entry.0 v.enabled ≡ some stream
  pub own : IsOwn entry.1 stream
  pub past : entry.1.monotonic_ns ≤ now
  pub fresh : now - entry.1.monotonic_ns ≤ v.max_age_ns
  pub continues : Continues entry.0 entry.1 v.previous v.pending

check_identity-IsOwn :
    (frame : CameraFrameMetadata) (o : Option Stream)
    → check_identity frame o ≡ ok tt
    → (stream : Stream) × (o ≡ some stream) × IsOwn frame stream
unfolding check_identity
check_identity-IsOwn frame none h = absurd (ground arith)
check_identity-IsOwn frame (some stream) h = (
  stream,
  refl,
  elim (Option-cases stream.device_id) [
    | inl nothing ↦ absurd (ground (arith, nothing))
    | inr (d, device) ↦ record {
      role = ground (arith, eq_iff frame.role stream.role);
      device = ground (arith, device, eq_iff frame.device_id d);
    }
  ],
)

check_continuity-Continues :
    (role : String) (frame : CameraFrameMetadata) (previous : Option (List (String × Continuity)))
    (pending : Option (List (String × String)))
    → check_continuity role frame previous pending ≡ ok tt
    → Continues role frame previous pending
unfolding check_continuity
check_continuity-Continues role frame none pending h = tt
check_continuity-Continues role frame (some previous) pending h =
    elim (Option-cases (lookup role previous)) [
      | inl nothing ↦ absurd (ground (arith, nothing))
      | inr (prior, found) ↦ (
        prior,
        found,
        elim (Option-cases (declared role pending)) [
          | inl nothing ↦
              rw nothing
                (ground (arith, found, nothing, eq_iff frame.stream_epoch prior.stream_epoch))
          | inr (epoch, expected) ↦
              rw expected (ground (arith, found, expected, eq_iff frame.stream_epoch epoch))
        ],
      )
    ]

check_frame-IsAccepted :
    (v : Validator) (now : ℕ) (role : String) (frame : CameraFrameMetadata)
    → check_frame v now role frame ≡ ok tt
    → IsAccepted v now (role, frame)
unfolding check_frame
check_frame-IsAccepted v now role frame h =
    let (stream, enabled, own) =
      check_identity-IsOwn frame (lookup role v.enabled) (ground arith) in
    record {
      stream = stream;
      enabled = enabled;
      own = own;
      past = ground arith;
      fresh = ground arith;
      continues = check_continuity-Continues role frame v.previous v.pending (ground arith);
    }

module _ {F : Type 0} where
  check_frames-IsAccepted :
      (v : Validator) (now : ℕ) (items : List (String × Received (FrameFields F)))
      (current : List (String × CameraFrameMetadata))
      → check_frames v now items ≡ ok current
      → (keys current ≡ keys items) × All (IsAccepted v now) current
  unfolding check_frames
  check_frames-IsAccepted v now [] [] h = (refl, tt)
  check_frames-IsAccepted v now [] (x ∷ current) h = cc
  check_frames-IsAccepted v now ((role, candidate) ∷ items) current h =
      elim (Result-cases (snapshot_frame_metadata candidate)) [
        | inr (x, failed) ↦ absurd (ground (arith, failed))
        | inl (frame, read) ↦ elim (Result-cases (check_frame v now role frame)) [
          | inr (x, failed) ↦ absurd (ground (arith, read, failed))
          | inl (u, passed) ↦ elim (Result-cases (check_frames v now items)) [
            | inr (x, failed) ↦ absurd (ground (arith, read, passed, failed))
            | inl (rest, others) ↦
                let split : current ≡ (role, frame) ∷ rest = ground (arith, read, passed, others) in
                let (same, accepted) = check_frames-IsAccepted v now items rest others in
                rw split (
                  ap (λ l. role ∷ l) same,
                  (check_frame-IsAccepted v now role frame passed, accepted),
                )
          ]
        ]
      ]

-- What `validate` found when it returned `current`.
pub record IsCoherent {F : Type 0} (v : Validator) (now_ns : Value F)
    (current : List (String × CameraFrameMetadata)) : Type 0 where
  pub now : ℕ
  pub now_of : natural now_ns ≡ some now
  pub known : subset (keys current) (keys v.enabled) ≡ true
  pub complete : subset (keys v.enabled) (keys current) ≡ true
  pub accepted : All (IsAccepted v now) current
  pub together : WithinSkew v.max_skew_ns current

-- What the next set continues: the epoch, the number and the time of every role's frame.
abbrev pub as_previous : List (String × CameraFrameMetadata) → List (String × Continuity)
as_previous current =
    map
      (λ (entry : String × CameraFrameMetadata). (
        entry.0,
        record {
          stream_epoch = entry.1.stream_epoch;
          source_sequence = entry.1.source_sequence;
          monotonic_ns = entry.1.monotonic_ns;
        },
      ))
      current

continuities-as_previous :
    (current : List (String × CameraFrameMetadata)) → continuities current ≡ as_previous current
continuities-as_previous [] = refl
continuities-as_previous (entry ∷ current) =
    ap₂ (λ x xs. x ∷ xs) refl (continuities-as_previous current)

module _ {F : Type 0} where
  check_set-IsCoherent :
      (v : Validator) (candidates : FrameMapping F) (now_ns : Value F)
      (current : List (String × CameraFrameMetadata))
      → check_set v candidates now_ns ≡ ok current
      → IsCoherent v now_ns current
  unfolding check_set
  check_set-IsCoherent v not_frames now_ns current h = absurd (ground arith)
  check_set-IsCoherent v (frames entries) now_ns current h = elim (Option-cases (natural now_ns)) [
    | inl nothing ↦ absurd (ground (arith, nothing))
    | inr (now, timed) ↦ elim (Option-cases (frame_items entries)) [
      | inl nothing ↦ absurd (ground (arith, timed, nothing))
      | inr (items, found) ↦ elim (Result-cases (check_frames v now items)) [
        | inr (x, failed) ↦ absurd (ground (arith, timed, found, failed))
        | inl (checked, passed) ↦
            let same : current ≡ checked = ground (arith, timed, found, passed) in
            let (named, accepted) = check_frames-IsAccepted v now items checked passed in
            let extremes = extremes-Between checked in
            let narrow : latest_of (frame_times checked) - earliest_of (frame_times checked)
                ≤ v.max_skew_ns =
              ground (arith, timed, found, passed) in
            rw same (record {
              now = now;
              now_of = timed;
              known = rw named (ground (arith, timed, found));
              complete = rw named (ground (arith, timed, found));
              accepted = accepted;
              together =
                  WithinSkew_from v.max_skew_ns (earliest_of (frame_times checked))
                    (latest_of (frame_times checked)) checked checked narrow extremes extremes;
            })
      ]
    ]
  ]

  -- A set that `validate` returns has a frame of every enabled role and of no other; each is of its
  -- stream's role and device, neither from the future nor too old, and continues the last accepted
  -- frame of its role: in its epoch with a greater number and a later time, or in the epoch that a
  -- reset has declared; and no two are further apart than the skew limit. The set then is what the
  -- next one continues, and no restart is pending.
  pub validate-IsCoherent :
      (v : Validator) (candidates : FrameMapping F) (now_ns : Value F)
      (current : List (String × CameraFrameMetadata))
      → (validate candidates now_ns v).0 ≡ ok current
      → IsCoherent v now_ns current
        × ((validate candidates now_ns v).1
            ≡ record v { previous = some (as_previous current); pending = none })
  unfolding validate
  validate-IsCoherent v candidates now_ns current h =
      elim (Result-cases (check_set v candidates now_ns)) [
        | inr (x, failed) ↦ absurd (ground (arith, failed))
        | inl (checked, passed) ↦
            let same : checked ≡ current = ground (arith, passed) in
            (
              check_set-IsCoherent v candidates now_ns current (rw (← same) passed),
              ground (arith, passed, same, continuities-as_previous checked),
            )
      ]
