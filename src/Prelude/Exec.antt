-- ===== src/Prelude/Exec.antt =====
-- Methods that mutate an object and may raise: what was written before a raise stays written, so
-- the state comes back beside the exception too.
use mathlib.Core.Path.{◌≡◌, refl}
use mathlib.Core.Bool.{Bool, true, false}
use vlai_l1_runtime.Prelude.Result.{Result, ok, err}

abbrev pub Exec : Type 0 → Type 0 → Type 0 → Type 0
Exec S E A = S → Result E A × S

module _ {S E A : Type 0} where
  abbrev pub pure : A → Exec S E A
  pure a s = (ok a, s)

  abbrev pub raise : E → Exec S E A
  raise e s = (err e, s)

  abbrev pub lift : Result E A → Exec S E A
  lift r s = (r, s)

  abbrev pub gets : (S → A) → Exec S E A
  gets f s = (ok (f s), s)

module _ {S E : Type 0} where
  abbrev pub modify : (S → S) → Exec S E (Unit {0})
  modify f s = (ok tt, f s)

  -- `if not ...: raise e`
  abbrev pub guard : Bool → E → Exec S E (Unit {0})
  guard true e s = (ok tt, s)
  guard false e s = (err e, s)

module _ {S E A B : Type 0} where
  abbrev pub continue : Result E A → (A → Exec S E B) → S → Result E B × S
  continue (ok a) f s = f a s
  continue (err e) f s = (err e, s)

  infixl 5 ◌>>=◌
  abbrev pub ◌>>=◌ : Exec S E A → (A → Exec S E B) → Exec S E B
  ◌>>=◌ m f s = continue (m s).0 f (m s).1

infixl 5 ◌>>◌
abbrev pub ◌>>◌ : {S E B : Type 0} → Exec S E (Unit {0}) → Exec S E B → Exec S E B
m >> k = m >>= λ _. k

module _ {S E A B : Type 0} (P : S → Type 0) where
  continue_after :
      (r : Result E A) (f : A → Exec S E B) (s : S)
      → P s
      → ((a : A) → r ≡ ok a → P (f a s).1)
      → P (continue r f s).1
  continue_after (ok a) f s h k = k a refl
  continue_after (err e) f s h k = h

  -- `P` holds after a block if it holds after its first call, raising or not, and if the rest,
  -- which runs where that call returned, brings it about.
  pub after_bind :
      (m : Exec S E A) (f : A → Exec S E B) (s : S)
      → P (m s).1
      → ((a : A) → (m s).0 ≡ ok a → P (f a (m s).1).1)
      → P ((m >>= f) s).1
  after_bind m f s h k = continue_after (m s).0 f (m s).1 h k
