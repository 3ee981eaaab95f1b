-- ===== src/Cameras/Ascending.antt =====
-- The accepted sets over any sequence of calls: each has newer frames than the one before it.
use vlai_l1_runtime.Prelude.{
  ℕ, ◌<◌, String, ◌≡◌, ◌≢◌, refl, ap, sym, ◌∙◌, subst, Option, none, some, List, [], ◌∷◌, inl, inr,
  arith, eq_iff, All, Option-cases, Bool-cases, str_eq,
}
use vlai_l1_runtime.Prelude.Result.{ok, err, Result-cases}
use vlai_l1_runtime.Prelude.Value.{Floats, Value, Received}
use vlai_l1_runtime.Contracts.{lookup, Mapping}
use vlai_l1_runtime.Cameras.Config.{CamerasFields}
use vlai_l1_runtime.Cameras.Frames.{CameraError, CameraFrameMetadata}
use vlai_l1_runtime.Cameras.Validator.{
  Continuity, Validator, FrameMapping, validate, reset, make_validator,
}
use vlai_l1_runtime.Cameras.Accepted.{
  as_previous, Follows, Continues, IsAccepted, IsCoherent, validate-IsCoherent,
}
use vlai_l1_runtime.Cameras.Known.{Differ}
use vlai_l1_runtime.Cameras.Invariant.{
  IsWellFormed, validate-err, validate-IsWellFormed, reset-IsWellFormed,
}
use vlai_l1_runtime.Cameras.Events.{
  Call, validating, resetting, sets, IsNew-IsWellFormed, make_validator-previous,
}

-- In the epoch of the role's frame before it, a frame has a greater number and a later time.
abbrev pub Newer : CameraFrameMetadata → Continuity → Type 0
Newer frame prior =
    frame.stream_epoch ≡ prior.stream_epoch
    → (prior.source_sequence < frame.source_sequence) × (prior.monotonic_ns < frame.monotonic_ns)

abbrev pub Later :
    Option (List (String × Continuity)) → List (String × CameraFrameMetadata) → Type 0
Later none set = Unit
Later (some previous) set =
    All
      (λ (a : String × CameraFrameMetadata).
        (prior : Continuity) × (lookup a.0 previous ≡ some prior) × Newer a.1 prior)
      set

-- Each set has newer frames than the one before it.
abbrev pub Ascend :
    Option (List (String × Continuity)) → List (List (String × CameraFrameMetadata)) → Type 0
Ascend before [] = Unit
Ascend before (set ∷ rest) = Later before set × Ascend (some (as_previous set)) rest

-- What the table holds of a key that it finds.
lookup-All {ℓ κ} :
    {A : Type ℓ} (P : String × A → Type κ) (m : List (String × A)) (k : String) (a : A)
    → All P m
    → lookup k m ≡ some a
    → P (k, a)
unfolding lookup
lookup-All P [] k a h e = absurd (cc e)
lookup-All P ((j, b) ∷ m) k a (first, rest) e = elim (Bool-cases (str_eq j k)) [
  | inl same ↦
      let named : k ≡ j = ground (arith, same, eq_iff j k) in
      let valued : a ≡ b = ground (arith, same) in rw (named, valued) first
  | inr differs ↦ lookup-All P m k a rest (ground (arith, differs))
]

Continues-Newer :
    (role : String) (frame : CameraFrameMetadata) (previous : List (String × Continuity))
    (pending : Option (List (String × String)))
    → ((epochs : List (String × String)) → pending ≡ some epochs → Differ previous epochs)
    → Continues role frame (some previous) pending
    → (prior : Continuity) × (lookup role previous ≡ some prior) × Newer frame prior
unfolding lookup
Continues-Newer role frame previous none differ (prior, found, follows) =
    (prior, found, λ e. (follows.1, follows.2))
Continues-Newer role frame previous (some epochs) differ (prior, found, follows) = (
  prior,
  found,
  elim (Option-cases (lookup role epochs)) [
    | inl nothing ↦
        let same : Follows frame prior none = subst (λ o. Follows frame prior o) nothing follows in
        λ e. (same.1, same.2)
    | inr (epoch, expected) ↦
        let restarted : frame.stream_epoch ≡ epoch =
          subst (λ o. Follows frame prior o) expected follows in
        let other =
          lookup-All
            (λ (entry : String × String).
              (p : Continuity) → lookup entry.0 previous ≡ some p → entry.1 ≢ p.stream_epoch)
            epochs role epoch (differ epochs refl) expected in
        λ same. absurd (other prior found (sym restarted ∙ same))
  ],
)

IsAccepted-Newer :
    (v : Validator) (now : ℕ) (entry : String × CameraFrameMetadata)
    (previous : List (String × Continuity))
    → IsWellFormed v
    → v.previous ≡ some previous
    → IsAccepted v now entry
    → (prior : Continuity) × (lookup entry.0 previous ≡ some prior) × Newer entry.1 prior
IsAccepted-Newer v now entry previous w former h =
    Continues-Newer entry.0 entry.1 previous v.pending
      (λ epochs e. w.differing previous epochs former e)
      (subst (λ o. Continues entry.0 entry.1 o v.pending) former h.continues)

All_map {ℓ κ μ} :
    {A : Type ℓ} (P : A → Type κ) (Q : A → Type μ) (xs : List A)
    → ((a : A) → P a → Q a)
    → All P xs
    → All Q xs
All_map P Q [] each h = tt
All_map P Q (x ∷ xs) each (h, hs) = (each x h, All_map P Q xs each hs)

IsCoherent-Later :
    {F : Type 0} (v : Validator) (now_ns : Value F) (current : List (String × CameraFrameMetadata))
    → IsWellFormed v
    → IsCoherent v now_ns current
    → Later v.previous current
IsCoherent-Later v now_ns current w h = elim (Option-cases v.previous) [
  | inl nothing ↦ rw nothing tt
  | inr (previous, former) ↦ rw former (
      All_map (IsAccepted v h.now)
        (λ (a : String × CameraFrameMetadata).
          (prior : Continuity) × (lookup a.0 previous ≡ some prior) × Newer a.1 prior)
        current (λ a k. IsAccepted-Newer v h.now a previous w former k) h.accepted)
]

module _ {F : Type 0} where
  sets-validating_ok :
      (candidates : FrameMapping F) (now_ns : Value F) (calls : List (Call F)) (v : Validator)
      (current : List (String × CameraFrameMetadata))
      → (validate candidates now_ns v).0 ≡ ok current
      → sets (validating candidates now_ns ∷ calls) v
        ≡ current ∷ sets calls (validate candidates now_ns v).1
  unfolding sets
  sets-validating_ok candidates now_ns calls v current h = ground arith

  sets-validating_err :
      (candidates : FrameMapping F) (now_ns : Value F) (calls : List (Call F)) (v : Validator)
      (e : CameraError)
      → (validate candidates now_ns v).0 ≡ err e
      → sets (validating candidates now_ns ∷ calls) v ≡ sets calls v
  unfolding sets
  sets-validating_err candidates now_ns calls v e h =
      ground (arith, validate-err candidates now_ns v e h)

  reset-previous :
      (restarted_epochs : Mapping F) (v : Validator)
      → (reset restarted_epochs v).1.previous ≡ v.previous
  unfolding reset
  reset-previous restarted_epochs v = ground arith

  sets-Ascend_from :
      (calls : List (Call F)) (v : Validator) → IsWellFormed v → Ascend v.previous (sets calls v)
  unfolding reset sets
  sets-Ascend_from [] v w = tt
  sets-Ascend_from (validating candidates now_ns ∷ calls) v w =
      let after = validate-IsWellFormed candidates now_ns v w in
      let rest = sets-Ascend_from calls (validate candidates now_ns v).1 after in
      elim (Result-cases (validate candidates now_ns v).0) [
        | inr (e, refused) ↦
            let same = validate-err candidates now_ns v e refused in
            rw (sets-validating_err candidates now_ns calls v e refused)
              (subst (λ (u : Validator). Ascend u.previous (sets calls u)) same rest)
        | inl (current, accepted) ↦
            let (coherent, kept) = validate-IsCoherent v candidates now_ns current accepted in
            rw (sets-validating_ok candidates now_ns calls v current accepted) (
              IsCoherent-Later v now_ns current w coherent,
              subst (λ o. Ascend o (sets calls (validate candidates now_ns v).1))
                  (ap (λ (u : Validator). u.previous) kept) rest,
            )
      ]
  sets-Ascend_from (resetting restarted_epochs ∷ calls) v w =
      let rest =
        sets-Ascend_from calls (reset restarted_epochs v).1
          (reset-IsWellFormed restarted_epochs v w) in
      subst (λ o. Ascend o (sets calls (reset restarted_epochs v).1))
        (reset-previous restarted_epochs v) rest

module _ (fl : Floats) (nanoseconds : fl.F → ℕ) where
  open fl use {F}

  -- Over any calls of a constructed validator, refused ones and resets among them, every frame of an
  -- accepted set has its role in the accepted set before; and where both are of one stream epoch, the
  -- newer has the greater source sequence and the later time.
  pub sets-Ascend :
      (config : Received (CamerasFields F)) (roles : Option (List String)) (v : Validator)
      → make_validator fl nanoseconds config roles ≡ ok v
      → (calls : List (Call F)) → Ascend none (sets calls v)
  sets-Ascend config roles v h calls =
      let new = make_validator-previous fl nanoseconds config roles v h in
      subst (λ o. Ascend o (sets calls v)) new (sets-Ascend_from calls v (IsNew-IsWellFormed v new))
