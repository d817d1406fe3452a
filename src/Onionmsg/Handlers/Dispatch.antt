-- ===== src/Onionmsg/Handlers/Dispatch.antt =====
-- What becomes of the payloads of a message (onionmsg/messenger.go, handleOnionMessage).
use boltnd.Prelude.{Option, none, some, List, [], ◌∷◌, ◌++◌, ◌≡◌, refl, ◌∙◌}
use boltnd.Prelude.Exec.{continue-cong, continue_assoc, ◌>>◌}
use boltnd.Lnwire.Payload.{FinalHopPayload, OnionMessagePayload}
use boltnd.Onionmsg.Handlers.{Handler, Handlers, lookup, hand_off, dispatch}

module _ {S : Type 0} where
  abbrev cons_if :
      Option (Handler S) → FinalHopPayload → List FinalHopPayload → List FinalHopPayload
  cons_if none f fs = fs
  cons_if (some h) f fs = f ∷ fs

  -- The payloads whose type has a handler.
  abbrev pub handled : Handlers S → List FinalHopPayload → List FinalHopPayload
  handled m [] = []
  handled m (f ∷ fs) = cons_if (lookup f.tlv_type m) f (handled m fs)

  -- Payloads without a handler make no difference to a message, at any place among the others.
  pub dispatch-handled :
      (m : Handlers S) (o : OnionMessagePayload) (fs : List FinalHopPayload) (s : S)
      → dispatch m o fs s ≡ dispatch m o (handled m fs) s
  unfolding dispatch hand_off
  dispatch-handled m o [] s = refl
  dispatch-handled m o (f ∷ fs) s = one (lookup f.tlv_type m) refl (λ s. dispatch-handled m o fs s)
    where
      one :
          (h : Option (Handler S))
          → lookup f.tlv_type m ≡ h
          → ((s : S) → dispatch m o fs s ≡ dispatch m o (handled m fs) s)
          → dispatch m o (f ∷ fs) s
            ≡ dispatch m o (cons_if (lookup f.tlv_type m) f (handled m fs)) s
      one none e ih = rw e (ih s)
      one (some h) e ih = rw (e, e) (continue-cong _ _ _ (λ _ s. ih s) _)

  -- Of two runs of payloads the second is begun only when every handler of the first succeeded, in the
  -- state that they left.
  pub dispatch-append :
      (m : Handlers S) (o : OnionMessagePayload) (fs gs : List FinalHopPayload) (s : S)
      → dispatch m o (fs ++ gs) s ≡ (dispatch m o fs >> dispatch m o gs) s
  unfolding dispatch
  dispatch-append m o [] gs s = refl
  dispatch-append m o (f ∷ fs) gs s =
      continue-cong _ _ _ (λ _ s. dispatch-append m o fs gs s) _
      ∙ continue_assoc (hand_off (lookup f.tlv_type m) o f s).0 (λ _. dispatch m o fs)
          (λ _. dispatch m o gs) (hand_off (lookup f.tlv_type m) o f s).1
