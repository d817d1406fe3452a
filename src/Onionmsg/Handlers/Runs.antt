-- ===== src/Onionmsg/Handlers/Runs.antt =====
-- Runs of the handlers' map and of the hand-off. The world counts the calls.
use boltnd.Prelude.{ℕ, suc, ◌≡◌, some, [], ◌∷◌, if◌then◌else◌, ◌==◌}
use boltnd.Prelude.Errors.{ok, err, foreign}
use boltnd.Onionmsg.Handlers.{Handler, Handlers, Registration, lookup, register_handler}
use boltnd.Onionmsg.Handlers.Registry.{settled, register_handler-lookup}

abbrev count : Handler ℕ
count reply encrypted value n = (ok tt, suc n)

abbrev fail : Handler ℕ
fail reply encrypted value n = (err (foreign 1), suc n)

abbrev handlers : Handlers ℕ
handlers = (101, count) ∷ (64, fail) ∷ []

abbrev to_add : Registration ℕ
to_add = record { tlv_type = 102; handler = some count }

register_handler-lookup_example :
    lookup 101 (register_handler to_add handlers).1
    ≡ (if 102 == 101 then settled (some count) (lookup 102 handlers) else lookup 101 handlers)
register_handler-lookup_example = register_handler-lookup to_add handlers 101
