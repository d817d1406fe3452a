-- ===== src/Prelude/Errors.antt =====
-- Go's errors as values: the packages' sentinel errors, `fmt.Errorf` with and without `%w`, the
-- errors of called libraries, and grpc status errors.
use mathlib.Core.Path.{◌≡◌, refl}
use Prim.Native.Nat.{ℕ}
use mathlib.Core.Bool.{Bool}
use boltnd.Prelude.Tests.{if◌then◌else◌}

-- The grpc codes that the rpc server answers with.
pub data Code : Type 0 where
  invalid_argument not_found internal unavailable canceled aborted : Code

pub data Error : Type 0 where
  -- lnwire
  odd_leaf_nodes no_tlvs not_final_payload no_hops node_id_required quantity_range : Error
  description_required invalid_sig offer_id_required payer_key_required : Error
  signature_required below_min_amount outside_quantity_range no_quantity : Error
  quantity_required no_creation_time no_payment_hash no_amount : Error
  -- offers
  incorrect_split not_in_charset invalid_offer_str bad_hrp : Error
  -- onionmsg
  not_started handler_not_found handler_registered no_addresses no_connection no_path : Error
  final_payload bad_message bad_onion_msg bad_onion_blob nil_pubkey_in_route : Error
  no_forwarding_onion no_next_node_id both_dest no_dest no_blinded_hops shutting_down : Error
  lnd_shutdown no_encrypted_data no_forwarding_payload : Error
  -- routes
  no_channels no_peer_channels no_node_info feature_mismatch no_relaying_peers : Error
  no_hops_in_request session_key_required blinding_key_required no_introduction_node : Error
  -- `errors.New` or `fmt.Errorf` in a function body, with no `%w`
  text : Error
  -- an error that code outside the repository returned
  foreign : ℕ → Error
  -- `status.Error` and `status.Errorf`
  status : Code → Error
  -- `fmt.Errorf` with one `%w`
  wrapped : Error → Error

-- Go's (value, error). `panic` is a run-time panic, `stuck` is no Go value: fuel ran out.
pub data Result {ℓ} (A : Type ℓ) : Type ℓ where
  ok : A → Result A
  err : Error → Result A
  panic : Result A
  stuck : Result A

infixl 5 ◌>>=◌
abbrev pub ◌>>=◌ {ℓ κ} : {A : Type ℓ} {B : Type κ} → Result A → (A → Result B) → Result B
stuck >>= next = stuck
panic >>= next = panic
err e >>= next = err e
ok a >>= next = next a

infixl 5 ◌>>◌
abbrev pub ◌>>◌ {ℓ} : {B : Type ℓ} → Result (Unit {0}) → Result B → Result B
first >> second = first >>= λ _. second

-- `if err != nil { return fmt.Errorf("...: %w", err) }`
abbrev pub wrap {ℓ} : {A : Type ℓ} → Result A → Result A
wrap (ok a) = ok a
wrap (err e) = err (wrapped e)
wrap panic = panic
wrap stuck = stuck

-- `if err != nil { return e }`, where the new error does not wrap the old one
abbrev pub replace {ℓ} : {A : Type ℓ} → Error → Result A → Result A
replace e (ok a) = ok a
replace e (err _) = err e
replace e panic = panic
replace e stuck = stuck

abbrev pub guard : Bool → Error → Result (Unit {0})
guard passed e = if passed then ok tt else err e

-- The innermost error of a chain of `%w`.
abbrev pub root_cause : Error → Error
root_cause (wrapped e) = root_cause e
root_cause e = e

module _ {ℓ} {A : Type ℓ} where
  pub wrap-eq-ok : (m : Result A) {a : A} → wrap m ≡ ok a → m ≡ ok a
  wrap-eq-ok (ok b) h = h
  wrap-eq-ok (err e) h = cc
  wrap-eq-ok panic h = cc
  wrap-eq-ok stuck h = cc

  pub replace-eq-ok : (e : Error) (m : Result A) {a : A} → replace e m ≡ ok a → m ≡ ok a
  replace-eq-ok e (ok b) h = h
  replace-eq-ok e (err f) h = cc
  replace-eq-ok e panic h = cc
  replace-eq-ok e stuck h = cc

  pub ok-injective : {a b : A} → ok a ≡ ok b → a ≡ b
  ok-injective h = cc

  -- Inversion of a successful bind.
  pub >>=-eq-ok {κ} :
      {B : Type κ} (first : Result A) (next : A → Result B) {result : B}
      → (first >>= next) ≡ ok result
      → (a : A) × (first ≡ ok a) × (next a ≡ ok result)
  >>=-eq-ok stuck next done = cc
  >>=-eq-ok panic next done = cc
  >>=-eq-ok (err e) next done = cc
  >>=-eq-ok (ok a) next done = (a, refl, done)

-- The call came back, with a value or an error.
abbrev pub Returns {ℓ} : {A : Type ℓ} → Result A → Type 0
Returns (ok a) = Unit
Returns (err e) = Unit
Returns panic = ⊥
Returns stuck = ⊥

pub wrap-Returns {ℓ} : {A : Type ℓ} (m : Result A) → Returns m → Returns (wrap m)
wrap-Returns (ok a) h = tt
wrap-Returns (err e) h = tt
wrap-Returns panic h = absurd h
wrap-Returns stuck h = absurd h

pub >>=-Returns {ℓ κ} :
    {A : Type ℓ} {B : Type κ} (m : Result A) (f : A → Result B)
    → Returns m
    → ((a : A) → m ≡ ok a → Returns (f a))
    → Returns (m >>= f)
>>=-Returns (ok a) f h k = k a refl
>>=-Returns (err e) f h k = tt
>>=-Returns panic f h k = absurd h
>>=-Returns stuck f h k = absurd h

-- Two blocks that begin alike and go on alike are alike.
pub >>=-cong {ℓ κ} :
    {A : Type ℓ} {B : Type κ} (m : Result A) (f g : A → Result B)
    → ((a : A) → f a ≡ g a)
    → (m >>= f) ≡ (m >>= g)
>>=-cong (ok a) f g h = h a
>>=-cong (err e) f g h = refl
>>=-cong panic f g h = refl
>>=-cong stuck f g h = refl
