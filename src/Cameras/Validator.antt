-- ===== src/Cameras/Validator.antt =====
-- `CameraSetValidator`: the continuity of the frames of every role.
use vlai_l1_runtime.Prelude.{
  ℕ, ◌-◌, String, Bool, true, false, not, ◌&&◌, Option, none, some, List, [], ◌∷◌, str_eq, ltb, leb,
  if◌then◌else◌,
}
use vlai_l1_runtime.Prelude.Result.{Result, ok, err, ◌>>=◌, ◌>>◌, guard}
use vlai_l1_runtime.Prelude.Exec.{Exec}
use vlai_l1_runtime.Prelude.Value.{
  Floats, Value, text, natural, Received, instance_of, incomplete, foreign,
}
use vlai_l1_runtime.Contracts.{
  unique, subset, lookup, keys, Mapping, mapping, not_mapping, text_items, require_normalized,
}
use vlai_l1_runtime.Cameras.Config.{
  CameraConfig, CamerasFields, CamerasConfig, make_cameras_config, collection_ready,
}
use vlai_l1_runtime.Cameras.Frames.{
  CameraError, config_type, config_malformed, not_commissioned, bad_roles, unavailable_role,
  nothing_accepted, restart_pending, no_restart, restart_not_text, unknown_role, bad_epoch,
  same_epoch, bad_now, not_a_mapping, role_set_differs, role_differs, device_differs, in_future,
  stale, wrong_restart_epoch, epoch_changed, sequence_not_increasing, time_not_increasing,
  skew_exceeded, key_error, FrameFields, CameraFrameMetadata, snapshot_frame_metadata,
}

-- `_CameraContinuity`
pub record Continuity : Type 0 where
  pub stream_epoch : String
  pub source_sequence : ℕ
  pub monotonic_ns : ℕ

-- The fields of a stream that `_validate_frame_identity` reads.
pub record Stream : Type 0 where
  pub role : String
  pub device_id : Option String

-- The two limits stand as `int(seconds * 1_000_000_000)`.
pub record Validator : Type 0 where
  pub max_age_ns : ℕ
  pub max_skew_ns : ℕ
  pub enabled : List (String × Stream)
  pub previous : Option (List (String × Continuity))
  pub pending : Option (List (String × String))

-- A dictionary from roles to objects, its items in order.
pub data FrameMapping (F : Type 0) : Type 0 where
  frames : List (Value F × Received (FrameFields F)) → FrameMapping F
  not_frames : FrameMapping F

abbrev pub stream_of : CameraConfig → Stream
stream_of c = record { role = c.role; device_id = c.device_id }

abbrev pub enabled_streams : List CameraConfig → List (String × Stream)
enabled_streams [] = []
enabled_streams (c ∷ cs) =
    let rest = enabled_streams cs in if c.enabled then (c.role, stream_of c) ∷ rest else rest

-- `{role: enabled[role] for role in roles}`
unfoldable pub select :
    List String → List (String × Stream) → Result CameraError (List (String × Stream))
unfolding lookup
select [] streams = ok []
select (role ∷ roles) streams = do
  stream ← (elim (lookup role streams) [ none ↦ err unavailable_role | some s ↦ ok s ])
  rest ← select roles streams
  ok ((role, stream) ∷ rest)

abbrev is_empty {ℓ} : {A : Type ℓ} → List A → Bool
is_empty [] = true
is_empty (x ∷ xs) = false

abbrev chosen : Option (List String) → List (String × Stream) → List String
chosen none streams = keys streams
chosen (some roles) streams = roles

abbrev commissioned : Option (List String) → List CameraConfig → Bool
commissioned none streams = collection_ready streams
commissioned (some roles) streams = true

-- `nanoseconds x` is `int(x * 1_000_000_000)`.
module _ (fl : Floats) (nanoseconds : fl.F → ℕ) where
  open fl use {F}

  abbrev config_snapshot : Received (CamerasFields F) → Result CameraError (CamerasConfig F)
  config_snapshot foreign = err config_type
  config_snapshot incomplete = err config_malformed
  config_snapshot (instance_of c) = elim (make_cameras_config fl c) [
    | err e ↦ err config_malformed
    | ok config ↦ ok config
  ]

  -- `CameraSetValidator.__init__`
  unfoldable pub make_validator :
      Received (CamerasFields F) → Option (List String) → Result CameraError Validator
  unfolding unique select
  make_validator config roles = do
    c ← config_snapshot config
    guard (commissioned roles c.streams) not_commissioned
    let wanted : List String = chosen roles (enabled_streams c.streams)
    guard (not (is_empty wanted)) bad_roles
    guard (unique wanted) bad_roles
    enabled ← select wanted (enabled_streams c.streams)
    ok (record {
      max_age_ns = nanoseconds c.max_age_s;
      max_skew_ns = nanoseconds c.max_pair_skew_s;
      enabled = enabled;
      previous = none;
      pending = none;
    })

-- `epoch == self._previous[role].stream_epoch`
abbrev differs_from : Option Continuity → String → Result CameraError (Unit {0})
differs_from none epoch = err key_error
differs_from (some prior) epoch = guard (not (str_eq epoch prior.stream_epoch)) same_epoch

module _ {F : Type 0} where
  -- The loop of `reset`.
  unfoldable pub check_epochs :
      List (String × Continuity)
      → List (String × Value F)
      → Result CameraError (List (String × String))
  unfolding lookup require_normalized
  check_epochs previous [] = ok []
  check_epochs previous ((role, value) ∷ items) = do
    epoch ← (elim (require_normalized value) [ none ↦ err bad_epoch | some s ↦ ok s ])
    differs_from (lookup role previous) epoch
    rest ← check_epochs previous items
    ok ((role, epoch) ∷ rest)

  abbrev restart_items : Mapping F → Result CameraError (List (String × Value F))
  restart_items not_mapping = err no_restart
  restart_items (mapping []) = err no_restart
  restart_items (mapping (item ∷ items)) = elim (text_items (item ∷ items)) [
    | none ↦ err restart_not_text
    | some found ↦ ok found
  ]

  abbrev restarted :
      Validator
      → Option (List (String × Continuity))
      → Mapping F
      → Result CameraError (List (String × String))
  restarted v none restarted_epochs = err nothing_accepted
  restarted v (some previous) restarted_epochs = do
    guard (elim v.pending [ none ↦ true | some epochs ↦ false ]) restart_pending
    items ← restart_items restarted_epochs
    guard (subset (keys items) (keys v.enabled)) unknown_role
    check_epochs previous items

  -- `reset`
  unfoldable pub reset : Mapping F → Exec Validator CameraError (Unit {0})
  unfolding check_epochs subset text_items
  reset restarted_epochs v = elim (restarted v v.previous restarted_epochs) [
    | err e ↦ (err e, v)
    | ok epochs ↦ (ok tt, record v { pending = some epochs })
  ]

-- `_validate_frame_identity`
unfoldable pub check_identity : CameraFrameMetadata → Option Stream → Result CameraError (Unit {0})
check_identity frame none = err key_error
check_identity frame (some stream) = do
  guard (str_eq frame.role stream.role) role_differs
  guard (elim stream.device_id [ none ↦ false | some d ↦ str_eq frame.device_id d ]) device_differs

abbrev pub declared : String → Option (List (String × String)) → Option String
declared role none = none
declared role (some epochs) = lookup role epochs

abbrev follows : CameraFrameMetadata → Continuity → Option String → Result CameraError (Unit {0})
follows frame prior (some restarted_epoch) =
    guard (str_eq frame.stream_epoch restarted_epoch) wrong_restart_epoch
follows frame prior none = do
  guard (str_eq frame.stream_epoch prior.stream_epoch) epoch_changed
  guard (ltb prior.source_sequence frame.source_sequence) sequence_not_increasing
  guard (ltb prior.monotonic_ns frame.monotonic_ns) time_not_increasing

-- The tests of a frame against the last accepted one.
unfoldable pub check_continuity :
    String
    → CameraFrameMetadata
    → Option (List (String × Continuity))
    → Option (List (String × String))
    → Result CameraError (Unit {0})
unfolding lookup
check_continuity role frame none pending = ok tt
check_continuity role frame (some previous) pending = elim (lookup role previous) [
  | none ↦ err key_error
  | some prior ↦ follows frame prior (declared role pending)
]

-- One turn of the loop of `validate`, on a checked copy.
unfoldable pub check_frame :
    Validator → ℕ → String → CameraFrameMetadata → Result CameraError (Unit {0})
unfolding lookup
check_frame v now role frame = do
  check_identity frame (lookup role v.enabled)
  guard (leb frame.monotonic_ns now) in_future
  guard (leb (now - frame.monotonic_ns) v.max_age_ns) stale
  check_continuity role frame v.previous v.pending

module _ {F : Type 0} where
  unfoldable pub check_frames :
      Validator
      → ℕ
      → List (String × Received (FrameFields F))
      → Result CameraError (List (String × CameraFrameMetadata))
  check_frames v now [] = ok []
  check_frames v now ((role, candidate) ∷ items) = do
    frame ← snapshot_frame_metadata candidate
    check_frame v now role frame
    rest ← check_frames v now items
    ok ((role, frame) ∷ rest)

  -- The items, if every key is a text.
  unfoldable pub frame_items :
      List (Value F × Received (FrameFields F)) → Option (List (String × Received (FrameFields F)))
  frame_items [] = some []
  frame_items ((text k, v) ∷ items) = elim (frame_items items) [
    | none ↦ none
    | some rest ↦ some ((k, v) ∷ rest)
  ]
  frame_items (_ ∷ items) = none

abbrev pub frame_times : List (String × CameraFrameMetadata) → List ℕ
frame_times [] = []
frame_times ((role, frame) ∷ rest) = frame.monotonic_ns ∷ frame_times rest

-- `max` and `min` of a list that is not empty
abbrev pub latest_of : List ℕ → ℕ
latest_of [] = 0
latest_of (t ∷ ts) = if ltb (latest_of ts) t then t else latest_of ts

abbrev pub earliest_of : List ℕ → ℕ
earliest_of [] = 0
earliest_of (t ∷ []) = t
earliest_of (t ∷ u ∷ ts) = if ltb t (earliest_of (u ∷ ts)) then t else earliest_of (u ∷ ts)

abbrev pub continuity_of : CameraFrameMetadata → Continuity
continuity_of frame = record {
  stream_epoch = frame.stream_epoch;
  source_sequence = frame.source_sequence;
  monotonic_ns = frame.monotonic_ns;
}

abbrev pub continuities : List (String × CameraFrameMetadata) → List (String × Continuity)
continuities [] = []
continuities ((role, frame) ∷ rest) = (role, continuity_of frame) ∷ continuities rest

module _ {F : Type 0} where
  abbrev items_of : FrameMapping F → Result CameraError (List (String × Received (FrameFields F)))
  items_of not_frames = err not_a_mapping
  items_of (frames items) = elim (frame_items items) [
    | none ↦ err not_a_mapping
    | some found ↦ ok found
  ]

  -- The tests of `validate`.
  unfoldable pub check_set :
      Validator
      → FrameMapping F
      → Value F
      → Result CameraError (List (String × CameraFrameMetadata))
  unfolding subset
  check_set v candidates now_ns = do
    now ← (elim (natural now_ns) [ none ↦ err bad_now | some n ↦ ok n ])
    items ← items_of candidates
    guard (subset (keys items) (keys v.enabled) && subset (keys v.enabled) (keys items))
        role_set_differs
    current ← check_frames v now items
    guard (leb (latest_of (frame_times current) - earliest_of (frame_times current)) v.max_skew_ns)
        skew_exceeded
    ok current

  -- `validate`
  unfoldable pub validate :
      FrameMapping F → Value F → Exec Validator CameraError (List (String × CameraFrameMetadata))
  validate candidates now_ns v = elim (check_set v candidates now_ns) [
    | err e ↦ (err e, v)
    | ok current ↦ (ok current, record v { previous = some (continuities current); pending = none })
  ]
