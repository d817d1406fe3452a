-- ===== src/Lnwire/Bolt12/Signed.antt =====
-- lnwire/bolt12_signature.go: what a message's signature has to be.
use boltnd.Prelude.{◌≡◌, ◌↔◌, refl, true, Option, none, some, Bytes, Bool, not, false}
use boltnd.Prelude.Errors.{ok, Error, wrap, wrap-eq-ok, >>=-eq-ok, guard}
use boltnd.Lnwire.Tlv.{PubKey}
use boltnd.Lnwire.Bolt12.{Bolt12, validate_signature, validate_optional}

-- A guard that is passed.
pub guard-eq-ok : (t : Bool) (e : Error) → guard t e ≡ ok tt → t ≡ true
guard-eq-ok true e h = refl
guard-eq-ok false e h = cc

pub not-eq-false : (t : Bool) → not t ≡ true → t ≡ false
not-eq-false true h = cc
not-eq-false false h = refl

module _ (b : Bolt12) (key : PubKey) (digest : Bytes) where
  -- Bytes that are a signature of the digest by the key.
  abbrev pub Signs : Bytes → Type 0
  Signs s = (sig : Bytes) × (b.parse_signature s ≡ ok sig) × (b.verify sig digest key ≡ true)

  abbrev pub SignsIfAny : Option Bytes → Type 0
  SignsIfAny none = Unit
  SignsIfAny (some s) = Signs s

  pub validate_signature-Signs : (s : Bytes) → (validate_signature b s key digest ≡ ok tt) ↔ Signs s
  unfolding validate_signature
  validate_signature-Signs s = (
    λ h.
        let (sig, e, h₁) = >>=-eq-ok (wrap (b.parse_signature s)) _ h in
        (sig, wrap-eq-ok _ e, guard-eq-ok _ _ h₁),
    λ (sig, e, v). rw (e, v),
  )

  pub validate_optional-SignsIfAny :
      (s : Option Bytes) → (validate_optional b s key digest ≡ ok tt) ↔ SignsIfAny s
  unfolding validate_optional
  validate_optional-SignsIfAny none = (λ h. tt, λ h. refl)
  validate_optional-SignsIfAny (some s) = validate_signature-Signs s
