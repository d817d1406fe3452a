-- ===== src/Daemon/Attempts.antt =====
-- boltnd.go: the attempts to connect to lnd.
use boltnd.Prelude.{ℕ, zero, suc, ◌+◌, ◌%◌, ◌<◌, ◌≡◌, refl, false, none, some, List, [], ◌∷◌, arith}
use boltnd.Prelude.Errors.{Result, ok, err, panic, stuck, wrap, ◌>>=◌}
use boltnd.Daemon.{Connection, connect_loop, check_connection, connect_to_lnd}

-- What the attempts come to: that of the first one that does not fail with an error, or else of the last.
abbrev pub first_of : List (Result (Unit {0})) → Result (Unit {0})
first_of [] = panic
first_of (err e ∷ []) = err e
first_of (err e ∷ r ∷ rs) = first_of (r ∷ rs)
first_of (r ∷ rs) = r

-- The answers of the attempts from one number on.
abbrev pub attempts : (ℕ → Result (Unit {0})) → ℕ → ℕ → List (Result (Unit {0}))
attempts connect i zero = []
attempts connect i (suc n) = connect i ∷ attempts connect (suc i) n

attempts-connect_loop :
    (connect : ℕ → Result (Unit {0})) (n i : ℕ) (c : Connection)
    → (connect_loop connect (suc n) i c >>= check_connection)
      ≡ wrap (first_of (attempts connect i (suc n)))
unfolding connect_loop check_connection
attempts-connect_loop connect zero i c = last (connect i) refl
  where
    last :
        (r : Result (Unit {0}))
        → connect i ≡ r
        → (connect_loop connect 1 i c >>= check_connection) ≡ wrap (first_of (r ∷ []))
    last (ok _) e = rw (e, connect_loop, ◌>>=◌) refl
    last (err f) e = rw (e, connect_loop, ◌>>=◌) refl
    last panic e = rw (e, connect_loop, ◌>>=◌) refl
    last stuck e = rw (e, connect_loop, ◌>>=◌) refl
attempts-connect_loop connect (suc n) i c =
    next (attempts-connect_loop connect n (suc i)) (connect i) refl
  where
    next :
        ((c : Connection)
          → (connect_loop connect (suc n) (suc i) c >>= check_connection)
            ≡ wrap (first_of (attempts connect (suc i) (suc n))))
        → (r : Result (Unit {0})) → connect i ≡ r
        → (connect_loop connect (suc (suc n)) i c >>= check_connection)
          ≡ wrap (first_of (r ∷ attempts connect (suc i) (suc n)))
    next rest (ok _) e = rw (e, connect_loop, ◌>>=◌) refl
    next rest (err f) e =
        rw (e, connect_loop, ◌>>=◌) (rest (record { lnd = false; conn_err = some f }))
    next rest panic e = rw (e, connect_loop, ◌>>=◌) refl
    next rest stuck e = rw (e, connect_loop, ◌>>=◌) refl

pub attempts-connect_to_lnd :
    (connect : ℕ → Result (Unit {0})) (retries : ℕ)
    → retries < 255
    → connect_to_lnd connect retries ≡ wrap (first_of (attempts connect 0 (suc retries)))
unfolding connect_to_lnd
attempts-connect_to_lnd connect retries bounded =
    let rounds : (retries + 1) % 256 ≡ suc retries = omega arith in
    rw rounds (attempts-connect_loop connect retries 0 (record { lnd = false; conn_err = none }))
