-- ===== src/Collection/Recorded.antt =====
-- What an episode that was recorded consists of.
use vlai_l1_runtime.Prelude.{
  ℕ, zero, suc, ◌<◌, ◌≡◌, refl, ap, sym, ◌∙◌, Bool, Option, none, some, List, [], ◌∷◌, ◌++◌, length,
  inl, inr, ◌⊎◌, arith,
}
use mathlib.Core.List.{append_assoc, append-nil}
use vlai_l1_runtime.Prelude.Int.{pos}
use vlai_l1_runtime.Prelude.Result.{ok, Result-cases}
use vlai_l1_runtime.Prelude.Value.{Floats, Value, int}
use vlai_l1_runtime.Collection.Images.{Images}
use vlai_l1_runtime.Collection.Sample.{CollectionSample, ValidatedSample, lerobot_frame}
use vlai_l1_runtime.Collection.Checks.{Seconds, Assembler}
use vlai_l1_runtime.Collection.Assembler.{validate_sample}
use vlai_l1_runtime.Collection.Episode.{
  EpisodeDecision, save, discard, EpisodeSink, EpisodeResult, FrameOf, write_frame, write_frames,
  write_episode_frames, complete_episode, record_episode,
}

-- The frames that a sink holds, one more after each that it takes.
pub record HasLog {Frame Root Fault : Type 0} (sink : EpisodeSink Frame Root Fault) : Type 0 where
  pub log : sink.State → List Frame
  pub add_frame_log :
      (f : Frame) (k : sink.State)
      → (sink.add_frame f k).0 ≡ ok tt
      → log (sink.add_frame f k).1 ≡ log k ++ f ∷ []

module _ (fl : Floats) (tm : Seconds fl.F) (single : fl.F → fl.F) (of_bool : Bool → fl.F)
    {im : Images} {Root Fault : Type 0} (sink : EpisodeSink (FrameOf im fl.F) Root Fault) where
  open fl use {F}

  -- The frames are those of the samples, which the assembler accepts one after another from `s` on.
  abbrev pub Written :
      Value F → List (CollectionSample im F × Value F) → Assembler F → List (FrameOf im F) → Type 0
  Written task [] s [] = Unit
  Written task ((sample, now_ns) ∷ items) s (f ∷ fs) =
      (v : ValidatedSample im F) × ((validate_sample fl tm sample now_ns s).0 ≡ ok v)
      × (lerobot_frame single of_bool v task ≡ ok f)
      × Written task items (validate_sample fl tm sample now_ns s).1 fs
  Written _ _ _ _ = ⊥

  Written-length :
      (task : Value F) (items : List (CollectionSample im F × Value F)) (s : Assembler F)
      (fs : List (FrameOf im F))
      → Written task items s fs
      → length fs ≡ length items
  Written-length task [] s [] h = refl
  Written-length task [] s (f ∷ fs) h = absurd h
  Written-length task (item ∷ items) s [] h = absurd h
  Written-length task ((sample, now_ns) ∷ items) s (f ∷ fs) (v, valid, framed, rest) =
      ap suc (Written-length task items (validate_sample fl tm sample now_ns s).1 fs rest)

  write_frame-ok :
      (task : Value F) (sample : CollectionSample im F) (now_ns : Value F) (s : Assembler F)
      (k : sink.State)
      → (write_frame fl tm single of_bool sink task (sample, now_ns) (s, k)).0 ≡ ok tt
      → (v : ValidatedSample im F) × (f : FrameOf im F) × ((validate_sample fl tm sample now_ns s).0
          ≡ ok v)
        × (lerobot_frame single of_bool v task ≡ ok f)
        × ((sink.add_frame f k).0 ≡ ok tt)
        × ((write_frame fl tm single of_bool sink task (sample, now_ns) (s, k)).1
            ≡ ((validate_sample fl tm sample now_ns s).1, (sink.add_frame f k).1))
  unfolding write_frame
  write_frame-ok task sample now_ns s k h =
      elim (Result-cases (validate_sample fl tm sample now_ns s).0) [
        | inr (x, failed) ↦ absurd (ground (arith, failed))
        | inl (v, valid) ↦ elim (Result-cases (lerobot_frame single of_bool v task)) [
          | inr (x, failed) ↦ absurd (ground (arith, valid, failed))
          | inl (f, framed) ↦ elim (Result-cases (sink.add_frame f k).0) [
            | inr (x, failed) ↦ absurd (ground (arith, valid, framed, failed))
            | inl (u, added) ↦ (v, f, valid, framed, added, ground (arith, valid, framed, added))
          ]
        ]
      ]

module _ (fl : Floats) (tm : Seconds fl.F) (single : fl.F → fl.F) (of_bool : Bool → fl.F)
    {im : Images} {Root Fault : Type 0} (sink : EpisodeSink (FrameOf im fl.F) Root Fault)
    (logged : HasLog sink) where
  open fl use {F}
  open logged use {log}

  -- Writing puts the frames of all the samples behind those that were there.
  write_frames-Written :
      (task : Value F) (items : List (CollectionSample im F × Value F)) (s : Assembler F)
      (k : sink.State) (n : ℕ)
      → (write_frames fl tm single of_bool sink task items (s, k)).0 ≡ ok n
      → (fs : List (FrameOf im F)) × Written fl tm single of_bool sink task items s fs
        × (n ≡ length fs)
        × (log (write_frames fl tm single of_bool sink task items (s, k)).1.1 ≡ log k ++ fs)
  unfolding write_frames
  write_frames-Written task [] s k n h = ([], tt, ground arith, sym (append-nil (log k)))
  write_frames-Written task ((sample, now_ns) ∷ items) s k n h =
      elim (Result-cases (write_frame fl tm single of_bool sink task (sample, now_ns) (s, k)).0) [
        | inr (x, failed) ↦ absurd (ground (arith, failed))
        | inl (u, written) ↦
            let (v, f, valid, framed, added, after) =
              write_frame-ok fl tm single of_bool sink task sample now_ns s k written in
            let s' = (validate_sample fl tm sample now_ns s).1 in
            let k' = (sink.add_frame f k).1 in
            elim (Result-cases (write_frames fl tm single of_bool sink task items (s', k')).0) [
              | inr (x, failed) ↦ absurd (ground (arith, written, after, failed))
              | inl (m, others) ↦
                  let (fs, rest, count, kept) = write_frames-Written task items s' k' m others in
                  let whole : (write_frames fl tm single of_bool sink task
                        ((sample, now_ns) ∷ items) (s, k)).1
                      ≡ (write_frames fl tm single of_bool sink task items (s', k')).1 =
                    ground (arith, written, after, others) in
                  (
                    f ∷ fs,
                    (v, valid, framed, rest),
                    ground (arith, written, after, others, count),
                    ap (λ (e : Assembler F × sink.State). log e.1) whole
                        ∙ kept
                        ∙ ap (λ l. l ++ fs) (logged.add_frame_log f k added)
                        ∙ append_assoc (log k) (f ∷ []) fs,
                  )
            ]
      ]

  -- How an episode of these frames ended: the sink, with the frames behind those that it held,
  -- committed or discarded them.
  abbrev pub Ended : sink.State → List (FrameOf im F) → EpisodeResult Root → sink.State → Type 0
  Ended k fs r after =
      (whole : sink.State) × (log whole ≡ log k ++ fs)
      × (((r.decision ≡ save)
            × ((root : Root) × ((sink.commit whole).0 ≡ ok root) × (r.dataset_root ≡ some root))
            × (after ≡ (sink.commit whole).1))
          ⊎ ((r.decision ≡ discard)
              × (r.dataset_root ≡ none)
              × ((sink.discard_frames whole).0 ≡ ok tt)
              × (after ≡ (sink.discard_frames whole).1)))

  complete_episode-ok :
      (n : ℕ) (decision : Option EpisodeDecision) (s : Assembler F) (k : sink.State)
      (r : EpisodeResult Root)
      → (complete_episode fl tm single of_bool sink (int (pos n)) decision (s, k)).0 ≡ ok r
      → (decision ≡ some r.decision)
        × (r.frame_count ≡ n)
        × (0 < n)
        × (((r.decision ≡ save)
              × ((root : Root) × ((sink.commit k).0 ≡ ok root) × (r.dataset_root ≡ some root))
              × ((complete_episode fl tm single of_bool sink (int (pos n)) decision (s, k)).1.1
                  ≡ (sink.commit k).1))
            ⊎ ((r.decision ≡ discard)
                × (r.dataset_root ≡ none)
                × ((sink.discard_frames k).0 ≡ ok tt)
                × ((complete_episode fl tm single of_bool sink (int (pos n)) decision (s, k)).1.1
                    ≡ (sink.discard_frames k).1)))
  unfolding complete_episode
  complete_episode-ok n none s k r h = absurd (ground arith)
  complete_episode-ok zero (some decision) s k r h = absurd (ground arith)
  complete_episode-ok (suc n) (some save) s k r h = elim (Result-cases (sink.commit k).0) [
    | inr (x, failed) ↦ absurd (ground (arith, failed))
    | inl (root, committed) ↦ (
      ground (arith, committed),
      ground (arith, committed),
      omega arith,
      inl (
        ground (arith, committed),
        (root, committed, ground (arith, committed)),
        ground (arith, committed),
      ),
    )
  ]
  complete_episode-ok (suc n) (some discard) s k r h =
      elim (Result-cases (sink.discard_frames k).0) [
        | inr (x, failed) ↦ absurd (ground (arith, failed))
        | inl (u, dropped) ↦ (
          ground (arith, dropped),
          ground (arith, dropped),
          omega arith,
          inr (ground (arith, dropped), ground (arith, dropped), dropped, ground (arith, dropped)),
        )
      ]

  -- An episode that `record_episode` returns for has at least one sample, every sample accepted in
  -- turn and its frame put into the sink, in order and behind what was there; the sink then
  -- committed the frames, or discarded them, as it was decided, and the result counts them.
  pub record_episode-Ended :
      (samples : List (CollectionSample im F × Value F)) (task : Value F)
      (decision : Option EpisodeDecision) (s : Assembler F) (k : sink.State)
      (r : EpisodeResult Root)
      → (record_episode fl tm single of_bool sink samples task decision (s, k)).0 ≡ ok r
      → (fs : List (FrameOf im F)) × Written fl tm single of_bool sink task samples s fs
        × (decision ≡ some r.decision)
        × (r.frame_count ≡ length samples)
        × (0 < length samples)
        × Ended k fs r (record_episode fl tm single of_bool sink samples task decision (s, k)).1.1
  unfolding record_episode write_episode_frames
  record_episode-Ended samples task decision s k r h =
      elim (Result-cases (write_frames fl tm single of_bool sink task samples (s, k)).0) [
        | inr (x, failed) ↦ absurd (ground (arith, failed))
        | inl (zero, written) ↦ absurd (ground (arith, written))
        | inl (suc n, written) ↦
            let (fs, each, count, kept) = write_frames-Written task samples s k (suc n) written in
            let after = (write_frames fl tm single of_bool sink task samples (s, k)).1 in
            let completed : (complete_episode fl tm single of_bool sink (int (pos (suc n))) decision
                  after).0
                ≡ ok r =
              ground (arith, written) in
            let rest : (record_episode fl tm single of_bool sink samples task decision (s, k)).1.1
                ≡ (complete_episode fl tm single of_bool sink (int (pos (suc n))) decision
                    after).1.1 =
              ground (arith, written) in
            let (decided, counted, some_frames, ended) =
              complete_episode-ok (suc n) decision after.0 after.1 r completed in
            let total = count ∙ Written-length fl tm single of_bool sink task samples s fs each in
            (
              fs,
              each,
              decided,
              counted ∙ total,
              omega (arith, total),
              (after.1, kept, rw rest ended),
            )
      ]
