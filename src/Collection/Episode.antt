-- ===== src/Collection/Episode.antt =====
-- orchestration.py: the life of an episode. The sink of its frames is a parameter.
use vlai_l1_runtime.Prelude.{ℕ, zero, suc, String, Bool, Option, none, some, List, [], ◌∷◌}
use vlai_l1_runtime.Prelude.Int.{pos}
use vlai_l1_runtime.Prelude.Result.{Result, ok, err}
use vlai_l1_runtime.Prelude.Exec.{Exec, ◌>>=◌, ◌>>◌}
use vlai_l1_runtime.Prelude.Value.{Floats, Value, int}
use vlai_l1_runtime.Collection.Images.{Images}
use vlai_l1_runtime.Collection.Contract.{CollectionError}
use vlai_l1_runtime.Collection.Sample.{CollectionSample, ValidatedSample, Entry, lerobot_frame}
use vlai_l1_runtime.Collection.Checks.{Seconds, Assembler}
use vlai_l1_runtime.Collection.Assembler.{validate_sample}

-- `EpisodeDecision` of embodied_ops
pub data EpisodeDecision : Type 0 where
  save discard : EpisodeDecision

-- `EpisodeSink`: its own exceptions are of type `Fault`.
pub record EpisodeSink (Frame Root Fault : Type 0) : Type 1 where
  pub State : Type 0
  pub add_frame : Frame → Exec State Fault (Unit {0})
  pub commit : Exec State Fault Root
  pub discard_frames : Exec State Fault (Unit {0})

pub data EpisodeError (Fault : Type 0) : Type 0 where
  refused : CollectionError → EpisodeError Fault
  sink_fault : Fault → EpisodeError Fault
  no_frames bad_decision bad_count : EpisodeError Fault

pub record EpisodeResult (Root : Type 0) : Type 0 where
  pub decision : EpisodeDecision
  pub frame_count : ℕ
  pub dataset_root : Option Root

abbrev pub FrameOf : Images → Type 0 → Type 0
FrameOf im F = List (String × Entry im F)

abbrev collected : {E A : Type 0} → Result CollectionError A → Result (EpisodeError E) A
collected (ok a) = ok a
collected (err e) = err (refused e)

abbrev sunk : {E A : Type 0} → Result E A → Result (EpisodeError E) A
sunk (ok a) = ok a
sunk (err e) = err (sink_fault e)

module _ (fl : Floats) (tm : Seconds fl.F) (single : fl.F → fl.F) (of_bool : Bool → fl.F)
    {im : Images} {Root Fault : Type 0} (sink : EpisodeSink (FrameOf im fl.F) Root Fault) where
  open fl use {F}

  abbrev Episode : Type 0
  Episode = Assembler F × sink.State

  abbrev on_assembler :
      {A : Type 0}
      → Exec (Assembler F) CollectionError A
      → Exec (Assembler F × sink.State) (EpisodeError Fault) A
  on_assembler m (s, k) = (collected (m s).0, ((m s).1, k))

  abbrev on_sink :
      {A : Type 0}
      → Exec sink.State Fault A
      → Exec (Assembler F × sink.State) (EpisodeError Fault) A
  on_sink m (s, k) = (sunk (m k).0, (s, (m k).1))

  abbrev framed :
      ValidatedSample im F
      → Value F
      → Exec (Assembler F × sink.State) (EpisodeError Fault) (FrameOf im F)
  framed v task s = (collected (lerobot_frame single of_bool v task), s)

  -- One turn of the loop.
  unfoldable pub write_frame :
      Value F
      → CollectionSample im F × Value F
      → Exec (Assembler F × sink.State) (EpisodeError Fault) (Unit {0})
  unfolding validate_sample lerobot_frame
  write_frame task (sample, now_ns) = do
    v ← on_assembler (validate_sample fl tm sample now_ns)
    frame ← framed v task
    on_sink (sink.add_frame frame)

  unfoldable pub write_frames :
      Value F
      → List (CollectionSample im F × Value F)
      → Exec (Assembler F × sink.State) (EpisodeError Fault) ℕ
  unfolding write_frame
  write_frames task [] = λ s. (ok 0, s)
  write_frames task (item ∷ items) = do
    write_frame task item
    n ← write_frames task items
    (λ s. (ok (suc n), s))

  abbrev counted : ℕ → Exec (Assembler F × sink.State) (EpisodeError Fault) ℕ
  counted zero s = (err no_frames, s)
  counted (suc n) s = (ok (suc n), s)

  unfoldable pub write_episode_frames :
      Value F
      → List (CollectionSample im F × Value F)
      → Exec (Assembler F × sink.State) (EpisodeError Fault) ℕ
  unfolding write_frames
  write_episode_frames task samples = do n ← write_frames task samples; counted n

  abbrev positive : Value F → Exec (Assembler F × sink.State) (EpisodeError Fault) ℕ
  positive (int (pos (suc n))) s = (ok (suc n), s)
  positive _ s = (err bad_count, s)

  abbrev finished :
      EpisodeDecision
      → ℕ
      → Exec (Assembler F × sink.State) (EpisodeError Fault) (EpisodeResult Root)
  finished save n = do
    root ← on_sink sink.commit
    (λ s. (ok (record { decision = save; frame_count = n; dataset_root = some root }), s))
  finished discard n = do
    on_sink sink.discard_frames
    (λ s. (ok (record { decision = discard; frame_count = n; dataset_root = none }), s))

  -- The decision is read already: `EpisodeDecision(decision)` raises where it is none.
  unfoldable pub complete_episode :
      Value F
      → Option EpisodeDecision
      → Exec (Assembler F × sink.State) (EpisodeError Fault) (EpisodeResult Root)
  complete_episode frame_count none s = (err bad_decision, s)
  complete_episode frame_count (some decision) s = (positive frame_count >>= finished decision) s

  -- The body of `record_episode`, inside `with sink`.
  unfoldable pub record_episode :
      List (CollectionSample im F × Value F)
      → Value F
      → Option EpisodeDecision
      → Exec (Assembler F × sink.State) (EpisodeError Fault) (EpisodeResult Root)
  unfolding write_episode_frames complete_episode
  record_episode samples task decision = do
    frames ← write_episode_frames task samples
    complete_episode (int (pos frames)) decision
