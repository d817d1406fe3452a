-- ===== src/Daemon.antt =====
-- boltnd.go: the daemon's start and stop. What lndclient answers to each attempt to connect is an argument, by
-- the number of the attempt.
pub mod Attempts
pub mod Built
pub mod Config
pub mod Shutdown
mod Runs
use boltnd.Prelude.{
  ℕ, zero, suc, ◌+◌, ◌%◌, ◌^◌, Bool, true, false, not, Option, none, some, List, [], ◌∷◌, leb,
  Bytes, if◌then◌else◌,
}
use boltnd.Prelude.Errors.{
  Error, Result, ok, err, panic, stuck, wrapped, text, wrap, replace, guard, ◌>>=◌, ◌>>◌,
}
use boltnd.Rpcserver.Life.{Server, start, stop}

-- The state of a Boltnd: whether it holds a connection to lnd, whether that is closed, its rpc server.
pub record Boltnd : Type 0 where
  pub started : Bool
  pub stopped : Bool
  pub lnd : Bool
  pub lnd_closed : Bool
  pub rpc_server : Server

-- What the loop of Start leaves in `b.lnd` and in `connErr`.
pub record Connection : Type 0 where
  pub lnd : Bool
  pub conn_err : Option Error

-- The loop of Start, by the rounds that are left: true for a connection that is made.
unfoldable pub connect_loop : (ℕ → Result (Unit {0})) → ℕ → ℕ → Connection → Result Connection
connect_loop connect zero i c = ok c
connect_loop connect (suc rounds) i c = elim (connect i) [
  | ok u ↦ ok (record { lnd = true; conn_err = none })
  | err e ↦ connect_loop connect rounds (suc i) (record { lnd = false; conn_err = some e })
  | panic ↦ panic
  | stuck ↦ stuck
]

-- `int(b.cfg.LNDRetires+1)`, a sum of uint8.
abbrev pub rounds_of : ℕ → ℕ
rounds_of retries = (retries + 1) % 256

-- The test of connErr, and the dereference of `b.lnd`, which panics on nil.
unfoldable pub check_connection : Connection → Result (Unit {0})
check_connection c = elim c.conn_err [
  | none ↦ if c.lnd then ok tt else panic
  | some e ↦ err (wrapped e)
]

unfoldable pub connect_to_lnd : (ℕ → Result (Unit {0})) → ℕ → Result (Unit {0})
unfolding connect_loop check_connection
connect_to_lnd connect retries = do
  c ← connect_loop connect (rounds_of retries) 0 (record { lnd = false; conn_err = none })
  check_connection c

-- The rest of Start, with what the server's Start is answered by NewNodeECDH and the messenger. The error of
-- the server is formatted with %v.
unfoldable pub start_server :
    Result (Unit {0}) → Result (Unit {0}) → Result (Unit {0}) → Boltnd → Result (Unit {0}) × Boltnd
unfolding start
start_server (ok _) node_ecdh messenger b = (
  replace text (start node_ecdh messenger b.rpc_server).0,
  record b { lnd = true; rpc_server = (start node_ecdh messenger b.rpc_server).1 },
)
start_server (err e) node_ecdh messenger b = (err e, b)
start_server panic node_ecdh messenger b = (panic, b)
start_server stuck node_ecdh messenger b = (stuck, b)

-- The methods Start and Stop of the daemon.
unfoldable pub start_daemon :
    (ℕ → Result (Unit {0}))
    → ℕ
    → Result (Unit {0})
    → Result (Unit {0})
    → Boltnd
    → Result (Unit {0}) × Boltnd
unfolding connect_to_lnd start_server
start_daemon connect retries node_ecdh messenger b =
    let run =
      start_server (connect_to_lnd connect retries) node_ecdh messenger
        (record b { started = true }) in
    if b.started then (err text, b) else run

unfoldable pub close_lnd : Result (Unit {0}) → Boltnd → Result (Unit {0}) × Boltnd
close_lnd (ok _) b = (ok tt, record b { lnd_closed = b.lnd })
close_lnd (err e) b = (err text, b)
close_lnd panic b = (panic, b)
close_lnd stuck b = (stuck, b)

unfoldable pub stop_daemon : Result (Unit {0}) → Boltnd → Result (Unit {0}) × Boltnd
unfolding stop close_lnd
stop_daemon messenger b =
    let stopped =
      close_lnd (stop messenger b.rpc_server).0
        (record b { stopped = true; rpc_server = (stop messenger b.rpc_server).1 }) in
    if b.stopped then (err text, b) else stopped
