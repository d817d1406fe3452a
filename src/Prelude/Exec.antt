-- ===== src/Prelude/Exec.antt =====
-- Go code with effects on a world `S`: the state comes back beside the error too.
use mathlib.Core.Path.{◌≡◌, refl}
use boltnd.Prelude.Errors.{Error, Result, ok, err, panic, stuck, wrap, replace}

abbrev pub Exec {ℓ} : Type ℓ → Type ℓ → Type ℓ
Exec S A = S → Result A × S

module _ {ℓ} {S A : Type ℓ} where
  abbrev pub pure : A → Exec S A
  pure a s = (ok a, s)

  abbrev pub raise : Error → Exec S A
  raise e s = (err e, s)

  abbrev pub lift : Result A → Exec S A
  lift r s = (r, s)

  -- `wrap` and `replace` for the error of a call with effects.
  abbrev pub wrapping : Exec S A → Exec S A
  wrapping m s = (wrap (m s).0, (m s).1)

  abbrev pub replacing : Error → Exec S A → Exec S A
  replacing e m s = (replace e (m s).0, (m s).1)

module _ {ℓ} {S A B : Type ℓ} where
  abbrev pub continue : Result A → (A → Exec S B) → Exec S B
  continue (ok a) f s = f a s
  continue (err e) f s = (err e, s)
  continue panic f s = (panic, s)
  continue stuck f s = (stuck, s)

  infixl 5 ◌>>=◌ ◌>>◌
  abbrev pub ◌>>=◌ : Exec S A → (A → Exec S B) → Exec S B
  ◌>>=◌ m f s = continue (m s).0 f (m s).1

  abbrev pub ◌>>◌ : Exec S A → Exec S B → Exec S B
  m >> k = m >>= λ _. k

  pub continue-cong :
      (r : Result A) (f g : A → Exec S B)
      → ((a : A) (s : S) → f a s ≡ g a s)
      → (s : S) → continue r f s ≡ continue r g s
  continue-cong (ok a) f g h s = h a s
  continue-cong (err e) f g h s = refl
  continue-cong panic f g h s = refl
  continue-cong stuck f g h s = refl

pub continue_assoc {ℓ} :
    {S A B C : Type ℓ} (r : Result A) (f : A → Exec S B) (g : B → Exec S C) (s : S)
    → continue r (λ a. f a >>= g) s ≡ continue (continue r f s).0 g (continue r f s).1
continue_assoc (ok a) f g s = refl
continue_assoc (err e) f g s = refl
continue_assoc panic f g s = refl
continue_assoc stuck f g s = refl

-- Inversion of a successful bind.
pub continue-eq-ok {ℓ} :
    {S A B : Type ℓ} (r : Result A) (f : A → Exec S B) (s : S) {b : B} {t : S}
    → continue r f s ≡ (ok b, t)
    → (a : A) × (r ≡ ok a) × (f a s ≡ (ok b, t))
continue-eq-ok (ok a) f s h = (a, refl, h)
continue-eq-ok (err e) f s h = cc
continue-eq-ok panic f s h = cc
continue-eq-ok stuck f s h = cc

wrap_pair-eq-ok {ℓ} :
    {S A : Type ℓ} (r : Result A) (u : S) {a : A} {t : S}
    → ◌≡◌ {A = Result A × S} (wrap r, u) (ok a, t)
    → ◌≡◌ {A = Result A × S} (r, u) (ok a, t)
wrap_pair-eq-ok (ok b) u h = h
wrap_pair-eq-ok (err e) u h = cc
wrap_pair-eq-ok panic u h = cc
wrap_pair-eq-ok stuck u h = cc

pub wrapping-eq-ok {ℓ} :
    {S A : Type ℓ} (m : Exec S A) (s : S) {a : A} {t : S}
    → wrapping m s ≡ (ok a, t)
    → m s ≡ (ok a, t)
wrapping-eq-ok m s h = wrap_pair-eq-ok (m s).0 (m s).1 h
