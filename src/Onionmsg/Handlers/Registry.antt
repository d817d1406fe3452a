-- ===== src/Onionmsg/Handlers/Registry.antt =====
-- The map of handlers after a registration (onionmsg/messenger.go, registerHandler).
use boltnd.Prelude.{
  ℕ, Option, none, some, [], ◌∷◌, ◌≡◌, refl, ◌==◌, if◌then◌else◌, arith, Bool-cases, inl, inr,
  ==_iff,
}
use boltnd.Prelude.Errors.{Result, ok, err, wrapped, handler_not_found, handler_registered}
use boltnd.Onionmsg.Handlers.{
  Handler, Handlers, Registration, lookup, delete, insert, deregister, register, registration,
  register_handler,
}

module _ {S : Type 0} where
  lookup-delete :
      (t u : ℕ) (m : Handlers S) → lookup u (delete t m) ≡ (if t == u then none else lookup u m)
  unfolding lookup delete
  lookup-delete t u [] = ground arith
  lookup-delete t u ((v, h) ∷ m) = let ih = lookup-delete t u m in ground arith

  lookup-insert :
      (t u : ℕ) (h : Handler S) (m : Handlers S)
      → lookup u (insert t h m) ≡ (if t == u then some h else lookup u m)
  unfolding lookup insert
  lookup-insert t u h m = let ih = lookup-delete t u m in ground arith

  -- What a request asks of the entry of its type, when the entry is as given.
  abbrev pub settled : Option (Handler S) → Option (Handler S) → Option (Handler S)
  settled none old = none
  settled (some h) none = some h
  settled (some h) (some old) = some old

  abbrev pub answer : Option (Handler S) → Option (Handler S) → Result (Unit {0})
  answer none none = err (wrapped handler_not_found)
  answer none (some old) = ok tt
  answer (some h) none = ok tt
  answer (some h) (some old) = err (wrapped handler_registered)

  -- The map after a request has, for every type, what an abstract map has: the entry of the request's
  -- type is settled from the request and the old entry, and every other entry is the old one.
  pub register_handler-lookup :
      (r : Registration S) (m : Handlers S) (u : ℕ)
      → lookup u (register_handler r m).1
        ≡ (if r.tlv_type == u then settled r.handler (lookup r.tlv_type m) else lookup u m)
  unfolding register_handler registration deregister register
  register_handler-lookup r m u = lookup_after r.handler r.tlv_type m u (lookup r.tlv_type m) refl
    where
      same :
          (t u : ℕ) (m : Handlers S) (o : Option (Handler S))
          → lookup t m ≡ o
          → lookup u m ≡ (if t == u then o else lookup u m)
      same t u m o e = elim (Bool-cases (t == u)) [
        | inl same_type ↦ rw (same_type, ← (==_iff t u).0 same_type) e
        | inr other ↦ rw other
      ]

      lookup_after :
          (o : Option (Handler S)) (t : ℕ) (m : Handlers S) (u : ℕ) (old : Option (Handler S))
          → lookup t m ≡ old
          → lookup u (registration t o m).1
            ≡ (if t == u then settled o (lookup t m) else lookup u m)
      lookup_after none t m u none e = rw e (same t u m none e)
      lookup_after none t m u (some old) e = rw e (lookup-delete t u m)
      lookup_after (some h) t m u none e = rw e (lookup-insert t u h m)
      lookup_after (some h) t m u (some old) e = rw e (same t u m (some old) e)

  -- The answer to a request: to register is refused for a type that has a handler, to deregister for
  -- one that has none, and nothing else is refused.
  pub register_handler-answer :
      (r : Registration S) (m : Handlers S)
      → (register_handler r m).0 ≡ answer r.handler (lookup r.tlv_type m)
  unfolding register_handler registration deregister register
  register_handler-answer r m = answered r.handler r.tlv_type m (lookup r.tlv_type m) refl
    where
      answered :
          (o : Option (Handler S)) (t : ℕ) (m : Handlers S) (old : Option (Handler S))
          → lookup t m ≡ old
          → (registration t o m).0 ≡ answer o (lookup t m)
      answered none t m none e = rw e
      answered none t m (some old) e = rw e
      answered (some h) t m none e = rw e
      answered (some h) t m (some old) e = rw e
