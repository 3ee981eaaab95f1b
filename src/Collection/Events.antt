-- ===== src/Collection/Events.antt =====
-- An assembler over the samples of an episode, refused ones among them.
use vlai_l1_runtime.Prelude.{
  ℕ, ◌≡◌, sym, ap, subst, Option, none, some, List, [], ◌∷◌, inl, inr, arith,
}
use vlai_l1_runtime.Prelude.Int.{pos}
use vlai_l1_runtime.Prelude.Result.{ok, err, Result-cases}
use vlai_l1_runtime.Prelude.Value.{Floats, Value, int, Received}
use vlai_l1_runtime.Cameras.Config.{CamerasFields}
use vlai_l1_runtime.Cameras.Validator.{frames, validate}
use vlai_l1_runtime.Collection.Images.{Images}
use vlai_l1_runtime.Collection.Contract.{CollectionError, CollectionConfig}
use vlai_l1_runtime.Collection.Sample.{CollectionSample, ValidatedSample}
use vlai_l1_runtime.Collection.Checks.{Seconds, Assembler, prepare}
use vlai_l1_runtime.Collection.Assembler.{
  metadata_items, check_cameras, record_validated, make_assembler, validate_sample,
}
use vlai_l1_runtime.Collection.Prepared.{Above}
use vlai_l1_runtime.Collection.Accepted.{validate_sample-IsCurrent}

module _ (fl : Floats) (tm : Seconds fl.F) where
  open fl use {F}

  -- The numbers of the last accepted observation and action.
  abbrev last_numbers : Assembler F → Option ℕ × Option ℕ
  last_numbers s = (s.last_observation_sequence, s.last_action_sequence)

  -- The samples that `validate` returns for, as the calls come, by their numbers.
  unfoldable pub numbers :
      {im : Images} → List (CollectionSample im F × Value F) → Assembler F → List (ℕ × ℕ)
  numbers [] s = []
  numbers ((sample, now_ns) ∷ items) s =
      let rest = numbers items (validate_sample fl tm sample now_ns s).1 in
      elim (validate_sample fl tm sample now_ns s).0 [
        | err e ↦ rest
        | ok v ↦
            (sample.observation.metadata.source_sequence, sample.action.metadata.source_sequence)
            ∷ rest
      ]

  validate_sample-err_last :
      {im : Images} (sample : CollectionSample im F) (now_ns : Value F) (s : Assembler F)
      (e : CollectionError)
      → (validate_sample fl tm sample now_ns s).0 ≡ err e
      → last_numbers (validate_sample fl tm sample now_ns s).1 ≡ last_numbers s
  unfolding validate_sample check_cameras
  validate_sample-err_last sample now_ns s e h =
      elim (Result-cases (prepare fl tm s sample now_ns)) [
        | inr (x, failed) ↦ ground (arith, failed)
        | inl (p, prepared) ↦
            elim (Result-cases
              (validate {F = F} (frames (metadata_items sample.cameras)) (int (pos p.now))
                s.cameras).0) [
                  | inr (x, failed) ↦ ground (arith, prepared, failed)
                  | inl (current, coherent) ↦ ground (arith, prepared, coherent)
                ]
      ]

-- Each pair of numbers is greater than the one before, in both.
abbrev pub Rising : Option ℕ × Option ℕ → List (ℕ × ℕ) → Type 0
Rising before [] = Unit
Rising before ((o, a) ∷ rest) = Above before.0 o × Above before.1 a × Rising (some o, some a) rest

module _ (fl : Floats) (tm : Seconds fl.F) where
  open fl use {F}

  numbers-ok :
      {im : Images} (sample : CollectionSample im F) (now_ns : Value F)
      (items : List (CollectionSample im F × Value F)) (s : Assembler F) (v : ValidatedSample im F)
      → (validate_sample fl tm sample now_ns s).0 ≡ ok v
      → numbers fl tm ((sample, now_ns) ∷ items) s
        ≡ (sample.observation.metadata.source_sequence, sample.action.metadata.source_sequence)
          ∷ numbers fl tm items (validate_sample fl tm sample now_ns s).1
  unfolding numbers
  numbers-ok sample now_ns items s v h = ground arith

  numbers-err :
      {im : Images} (sample : CollectionSample im F) (now_ns : Value F)
      (items : List (CollectionSample im F × Value F)) (s : Assembler F) (e : CollectionError)
      → (validate_sample fl tm sample now_ns s).0 ≡ err e
      → numbers fl tm ((sample, now_ns) ∷ items) s
        ≡ numbers fl tm items (validate_sample fl tm sample now_ns s).1
  unfolding numbers
  numbers-err sample now_ns items s e h = ground arith

  numbers-Rising_from :
      {im : Images} (items : List (CollectionSample im F × Value F)) (s : Assembler F)
      → Rising (last_numbers fl tm s) (numbers fl tm items s)
  unfolding numbers record_validated
  numbers-Rising_from [] s = tt
  numbers-Rising_from ((sample, now_ns) ∷ items) s =
      let rest = numbers-Rising_from items (validate_sample fl tm sample now_ns s).1 in
      elim (Result-cases (validate_sample fl tm sample now_ns s).0) [
        | inr (e, refused) ↦
            let tail = numbers fl tm items (validate_sample fl tm sample now_ns s).1 in
            subst (λ l. Rising (last_numbers fl tm s) l)
              (sym (numbers-err sample now_ns items s e refused))
              (subst (λ l. Rising l tail) (validate_sample-err_last fl tm sample now_ns s e refused)
                rest)
        | inl (v, accepted) ↦
            let (c, after) = validate_sample-IsCurrent fl tm sample now_ns s v accepted in
            let tail = numbers fl tm items (validate_sample fl tm sample now_ns s).1 in
            subst (λ l. Rising (last_numbers fl tm s) l)
              (sym (numbers-ok sample now_ns items s v accepted))
              (
                c.prepared.joints.observation_new,
                c.prepared.joints.action_new,
                subst (λ l. Rising l tail) (ap (last_numbers fl tm) after) rest,
              )
      ]

  make_assembler-last :
      (config : CollectionConfig F) (cameras : Received (CamerasFields F)) (s : Assembler F)
      → make_assembler fl tm config cameras ≡ ok s
      → last_numbers fl tm s ≡ (none, none)
  unfolding make_assembler
  make_assembler-last config cameras s h = ground arith

  -- Over any samples given to a new assembler, accepted or refused, the accepted ones have strictly
  -- increasing numbers of the follower's observation and of the leader's action.
  pub numbers-Rising :
      {im : Images} (config : CollectionConfig F) (cameras : Received (CamerasFields F))
      (s : Assembler F)
      → make_assembler fl tm config cameras ≡ ok s
      → (items : List (CollectionSample im F × Value F))
      → Rising (none, none) (numbers fl tm items s)
  numbers-Rising config cameras s h items =
      subst (λ l. Rising l (numbers fl tm items s)) (make_assembler-last config cameras s h)
        (numbers-Rising_from items s)
