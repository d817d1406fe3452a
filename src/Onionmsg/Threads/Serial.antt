-- ===== src/Onionmsg/Threads/Serial.antt =====
-- What every interleaving of the goroutines keeps of the calls and of the map (onionmsg/messenger.go,
-- handleRegistration and manageOnionMessages).
use mathlib.Core.List.{append_assoc}
use boltnd.Prelude.{
  ℕ, ◌+◌, ◌≤◌, ◌≡◌, ◌⊎◌, inl, inr, refl, true, false, Option, none, some, List, [], ◌∷◌, ◌++◌, ◌==◌,
  ==_iff, Bool-cases, arith, if◌then◌else◌,
}
use boltnd.Prelude.Errors.{Result, ok}
use boltnd.Onionmsg.Handlers.{Handlers, Registration, register_handler}
use boltnd.Onionmsg.Messenger.{Life, quit_before, answered, handle_registration}
use boltnd.Onionmsg.Threads.{
  Stage, fresh, offering, awaiting, returned, Worker, waiting, registering, update, checks,
}

abbrev pub running : Life
running = record { started = true; stopped = false }

-- How often a call took effect, and whether the loop holds its request.
abbrev pub effects : ℕ → List ℕ → ℕ
effects i [] = 0
effects i (j ∷ js) = (if j == i then 1 else 0) + effects i js

abbrev pub held : ℕ → Worker → ℕ
held i (registering j) = if j == i then 1 else 0
held i _ = 0

module _ {S : Type 0} (requests : ℕ → Registration S) where
  -- The map after requests that are served one after the other.
  abbrev pub serve_all : List ℕ → Handlers S → Handlers S
  serve_all [] m = m
  serve_all (i ∷ is) m = serve_all is (register_handler (requests i) m).1

  -- A call with `n` effects, done or to come: one that waits for its answer has exactly one, one that is back
  -- at most one, and only one that passed the checks has any.
  abbrev pub IsBalanced : ℕ → ℕ → Stage → Type 0
  IsBalanced i n fresh = n ≡ 0
  IsBalanced i n offering = (checks (requests i) ≡ ok tt) × (n ≡ 0)
  IsBalanced i n awaiting = (checks (requests i) ≡ ok tt) × (n ≡ 1)
  IsBalanced i n (returned r) = (n ≤ 1) × ((checks (requests i) ≡ ok tt) ⊎ (n ≡ 0))

  -- The call's place among those that took effect.
  abbrev pub Place : ℕ → List ℕ → List ℕ → Type 0
  Place i before taken = (after : List ℕ) × (taken ≡ before ++ i ∷ after)

  abbrev pub IsAnswered : List ℕ → ℕ → Option (Result (Unit {0})) → Type 0
  IsAnswered taken i none = effects i taken ≡ 0
  IsAnswered taken i (some a) =
      (before : List ℕ) × (Place i before taken)
      × (a ≡ (register_handler (requests i) (serve_all before [])).0)

  -- A result is the one that the call alone has, on the map of its place, or the one it has when it finds the
  -- channel `quit` closed or fails the checks.
  abbrev pub IsExplained : List ℕ → ℕ → Stage → Type 0
  IsExplained taken i (returned r) =
      ((before : List ℕ) × (Place i before taken)
        × (r ≡ (handle_registration running answered (requests i) (serve_all before [])).0))
      ⊎ (r ≡ (handle_registration running quit_before (requests i) []).0)
  IsExplained taken i _ = Unit

  pub record Serial (taken : List ℕ) (handlers : Handlers S) (worker : Worker) (stages : ℕ → Stage)
      (answers : ℕ → Option (Result (Unit {0}))) : Type 0 where
    pub served : handlers ≡ serve_all taken []
    pub balanced : (i : ℕ) → IsBalanced i (effects i taken + held i worker) (stages i)
    pub heard : (i : ℕ) → IsAnswered taken i (answers i)
    pub explained : (i : ℕ) → IsExplained taken i (stages i)

  module _ {taken : List ℕ} {handlers : Handlers S} {answers : ℕ → Option (Result (Unit {0}))} where
    -- A call moves on, and the loop may with it.
    pub moved :
        {w v : Worker} {stages : ℕ → Stage} (i : ℕ) (stage : Stage)
        → Serial taken handlers w stages answers
        → ((j : ℕ) → (i == j) ≡ false → held j v ≡ held j w)
        → IsBalanced i (effects i taken + held i v) stage
        → IsExplained taken i stage
        → Serial taken handlers v (update stages i stage) answers
    unfolding update
    moved i stage h others mine why = record {
      served = h.served;
      balanced = λ j. elim (Bool-cases (i == j)) [
        | inl same ↦ rw (same, ← (==_iff i j).0 same) mine
        | inr other ↦ rw (other, others j other) (h.balanced j)
      ];
      heard = h.heard;
      explained = λ j. elim (Bool-cases (i == j)) [
        | inl same ↦ rw (same, ← (==_iff i j).0 same) why
        | inr other ↦ rw other (h.explained j)
      ];
    }

    -- The loop goes from one place to another, with no request at either.
    pub passed :
        {w v : Worker} {stages : ℕ → Stage}
        → Serial taken handlers w stages answers
        → ((j : ℕ) → held j v ≡ held j w)
        → Serial taken handlers v stages answers
    passed h same = record {
      served = h.served;
      balanced = λ j. rw (same j) (h.balanced j);
      heard = h.heard;
      explained = h.explained;
    }

  serve_all-append :
      (is js : List ℕ) (m : Handlers S) → serve_all (is ++ js) m ≡ serve_all js (serve_all is m)
  serve_all-append [] js m = refl
  serve_all-append (i ∷ is) js m = serve_all-append is js (register_handler (requests i) m).1

  effects-append : (i : ℕ) (js ks : List ℕ) → effects i (js ++ ks) ≡ effects i js + effects i ks
  effects-append i [] ks = omega arith
  effects-append i (j ∷ js) ks = let rest = effects-append i js ks in omega arith

  Place-append :
      (i : ℕ) (before taken more : List ℕ) → Place i before taken → Place i before (taken ++ more)
  Place-append i before taken more (after, e) =
      (after ++ more, rw (e, append_assoc before (i ∷ after) more))

  IsExplained-append :
      (i : ℕ) (taken more : List ℕ) (stage : Stage)
      → IsExplained taken i stage
      → IsExplained (taken ++ more) i stage
  IsExplained-append i taken more fresh h = tt
  IsExplained-append i taken more offering h = tt
  IsExplained-append i taken more awaiting h = tt
  IsExplained-append i taken more (returned r) (inl (before, place, e)) =
      inl (before, Place-append i before taken more place, e)
  IsExplained-append i taken more (returned r) (inr e) = inr e

  IsAnswered-append :
      (i j : ℕ) (taken : List ℕ) (a : Option (Result (Unit {0})))
      → (i == j) ≡ false
      → IsAnswered taken j a
      → IsAnswered (taken ++ i ∷ []) j a
  IsAnswered-append i j taken none other h = rw (effects-append j taken (i ∷ []), other, h)
  IsAnswered-append i j taken (some a) other (before, place, e) =
      (before, Place-append j before taken (i ∷ []) place, e)

  -- The loop answers a request: the call takes effect.
  pub serve :
      {taken : List ℕ} {handlers : Handlers S} {answers : ℕ → Option (Result (Unit {0}))}
      {stages : ℕ → Stage} (i : ℕ)
      → Serial taken handlers (registering i) stages answers
      → Serial
          (taken ++ i ∷ [])
          (register_handler (requests i) handlers).1
          waiting
          stages
          (update answers i (some (register_handler (requests i) handlers).0))
  unfolding update
  serve {taken} i h = record {
    served = rw (serve_all-append taken (i ∷ []) [], h.served);
    balanced = λ j. rw (balance j) (h.balanced j);
    heard = λ j. elim (Bool-cases (i == j)) [
      | inl same ↦ rw (same, ← (==_iff i j).0 same) (taken, ([], refl), rw h.served)
      | inr other ↦ rw other (IsAnswered-append i j taken _ other (h.heard j))
    ];
    explained = λ j. IsExplained-append j taken (i ∷ []) _ (h.explained j);
  }
    where
      balance :
          (j : ℕ) → effects j (taken ++ i ∷ []) + 0 ≡ effects j taken + (if i == j then 1 else 0)
      balance j = let sum = effects-append j taken (i ∷ []) in omega arith
