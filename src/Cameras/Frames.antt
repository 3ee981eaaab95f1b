-- ===== src/Cameras/Frames.antt =====
-- `CameraFrameMetadata`: its checks and its copy.
use vlai_l1_runtime.Prelude.{ℕ, String, Option, none, some}
use vlai_l1_runtime.Prelude.Result.{Result, ok, err, ◌>>=◌}
use vlai_l1_runtime.Prelude.Value.{Value, natural, Received, instance_of, incomplete, foreign}
use vlai_l1_runtime.Contracts.{require_normalized}

-- Each `raise CameraContractError(...)`; `key_error` is a KeyError of a dictionary.
pub data CameraError : Type 0 where
  bad_text bad_sequence bad_time : CameraError
  config_type config_malformed not_commissioned bad_roles unavailable_role : CameraError
  nothing_accepted restart_pending no_restart restart_not_text unknown_role : CameraError
  bad_epoch same_epoch : CameraError
  bad_now not_a_mapping role_set_differs frame_type frame_incomplete : CameraError
  role_differs device_differs in_future stale wrong_restart_epoch : CameraError
  epoch_changed sequence_not_increasing time_not_increasing skew_exceeded key_error : CameraError

pub record FrameFields (F : Type 0) : Type 0 where
  pub role : Value F
  pub device_id : Value F
  pub stream_epoch : Value F
  pub source_sequence : Value F
  pub monotonic_ns : Value F

pub record CameraFrameMetadata : Type 0 where
  pub role : String
  pub device_id : String
  pub stream_epoch : String
  pub source_sequence : ℕ
  pub monotonic_ns : ℕ

abbrev required_text : Option String → Result CameraError String
required_text none = err bad_text
required_text (some s) = ok s

abbrev required_natural : Option ℕ → CameraError → Result CameraError ℕ
required_natural none e = err e
required_natural (some n) e = ok n

module _ {F : Type 0} where
  -- `CameraFrameMetadata.__post_init__`
  unfoldable pub make_frame_metadata : FrameFields F → Result CameraError CameraFrameMetadata
  unfolding require_normalized
  make_frame_metadata f = do
    role ← required_text (require_normalized f.role)
    device_id ← required_text (require_normalized f.device_id)
    stream_epoch ← required_text (require_normalized f.stream_epoch)
    source_sequence ← required_natural (natural f.source_sequence) bad_sequence
    monotonic_ns ← required_natural (natural f.monotonic_ns) bad_time
    ok (record {
      role = role;
      device_id = device_id;
      stream_epoch = stream_epoch;
      source_sequence = source_sequence;
      monotonic_ns = monotonic_ns;
    })

  -- `_snapshot_frame_metadata`
  unfoldable pub snapshot_frame_metadata :
      Received (FrameFields F) → Result CameraError CameraFrameMetadata
  unfolding make_frame_metadata
  snapshot_frame_metadata foreign = err frame_type
  snapshot_frame_metadata incomplete = err frame_incomplete
  snapshot_frame_metadata (instance_of f) = make_frame_metadata f
