-- ===== src/Daemon/Built.antt =====
-- The daemons that NewBoltnd builds, and what Start does with them (boltnd.go and config.go).
use boltnd.Prelude.{
  ℕ, ◌^◌, ◌<◌, ◌≡◌, refl, sym, ap, ◌∙◌, ◌↔◌, true, false, not, Option, none, some, List, [], ◌∷◌,
  map, leb, arith, Bytes,
}
use boltnd.Prelude.Errors.{
  Result, ok, err, panic, stuck, text, wrapped, wrap, replace, replace-eq-ok, guard, ◌>>=◌,
  >>=-eq-ok, ok-injective,
}
use boltnd.Rpcserver.Life.{new_server, start}
use boltnd.Daemon.{Boltnd, start_server, start_daemon}
use boltnd.Daemon.Attempts.{first_of, attempts-connect_to_lnd}
use boltnd.Daemon.Config.{
  minimum_lnd_version, Version, LndClientConfig, SetupLogger, Config, Lnd, LndConfig, ConfigOption,
  connect_first, option_lnd_config, option_lnd_client, option_setup_logger, option_request_shutdown,
  option_lnd_logger, setup_loggers, apply_options, default_config, assert_version, assert_client,
  validate_config, configure, new_daemon, build, new_boltnd,
}

-- The options that the package offers.
pub data Choice (S : Type 0) : Type 0 where
  lnd_config : LndConfig → Choice S
  lnd_client : Option LndClientConfig → Choice S
  lnd_logger : Choice S
  setup_logger : Option (SetupLogger S) → Choice S
  request_shutdown : Option (S → S) → Choice S

module _ {S : Type 0} where
  -- Every option succeeds, in its order, and they lead from one configuration to the other.
  abbrev pub IsApplied : List (ConfigOption S) → Config S → Config S → Type 0
  IsApplied [] c d = c ≡ d
  IsApplied (opt ∷ opts) c d = ((opt c).0 ≡ ok tt) × (IsApplied opts (opt c).1 d)

  apply_options-IsApplied :
      (opts : List (ConfigOption S)) (c d : Config S)
      → apply_options opts c ≡ ok d
      → IsApplied opts c d
  unfolding apply_options
  apply_options-IsApplied [] c d h = ok-injective h
  apply_options-IsApplied (opt ∷ opts) c d h =
      let (_, first, rest) =
        >>=-eq-ok (replace text (opt c).0) (λ _. apply_options opts (opt c).1) h in
      (replace-eq-ok text (opt c).0 first, apply_options-IsApplied opts (opt c).1 d rest)

  applied-eq-ok :
      (opts : List (ConfigOption S)) (c d : Config S)
      → IsApplied opts c d
      → apply_options opts c ≡ ok d
  unfolding apply_options
  applied-eq-ok [] c d h = ap ok h
  applied-eq-ok (opt ∷ opts) c d (first, rest) = rw first (applied-eq-ok opts (opt c).1 d rest)

module _ {S : Type 0} (lnd : Lnd S) where
  -- A client's configuration is there, it asks for a version of lnd that is compatible with the minimum, and the
  -- wait is not negative.
  abbrev pub IsValid : Config S → Type 0
  IsValid c =
      (client : LndClientConfig) × (version : Version) × (c.lnd_client_cfg ≡ some client)
      × (client.check_version ≡ some version)
      × (lnd.assert_version_compatible version minimum_lnd_version ≡ ok tt)
      × (c.lnd_wait < 2 ^ 63)

  assert_client-eq-ok :
      (o : Option LndClientConfig)
      → assert_client lnd o ≡ ok tt
      → (client : LndClientConfig) × (version : Version) × (o ≡ some client)
        × (client.check_version ≡ some version)
        × (lnd.assert_version_compatible version minimum_lnd_version ≡ ok tt)
  unfolding assert_client
  assert_client-eq-ok none h = cc
  assert_client-eq-ok (some client) h = by_version client.check_version refl h
    where
      by_version :
          (v : Option Version)
          → client.check_version ≡ v
          → assert_version lnd v ≡ ok tt
          → (k : LndClientConfig) × (version : Version) × (some client ≡ some k)
            × (k.check_version ≡ some version)
            × (lnd.assert_version_compatible version minimum_lnd_version ≡ ok tt)
      by_version none e h = absurd (unfold assert_version in refused h)
        where
          refused : ◌≡◌ {A = Result (Unit {0})} (err text) (ok tt) → ⊥
          refused h = cc
      by_version (some v) e h = (client, v, refl, e, (unfold assert_version in h))

  validate_config-IsValid : (c : Config S) → validate_config lnd c ≡ ok tt ↔ IsValid c
  unfolding validate_config assert_client assert_version
  validate_config-IsValid c = (
    λ h.
        let (_, first, second) =
          >>=-eq-ok (assert_client lnd c.lnd_client_cfg)
            (λ _. guard (not (leb (2 ^ 63) c.lnd_wait)) text) h in
        let (client, version, set, asks, compatible) = assert_client-eq-ok c.lnd_client_cfg first in
        (client, version, set, asks, compatible, ground (arith, second)),
    λ (client, version, set, asks, compatible, wait).
        let small : leb (2 ^ 63) c.lnd_wait ≡ false = ground arith in
        rw (set, asks, compatible, small),
  )

  configure-eq-ok :
      (opts : List (ConfigOption S)) (c : Config S)
      → configure lnd opts ≡ ok c
      → (IsApplied opts (default_config lnd) c) × (validate_config lnd c ≡ ok tt)
  unfolding configure
  configure-eq-ok opts c h =
      let (d, applied, rest) =
        >>=-eq-ok (apply_options opts (default_config lnd))
          (λ d. replace text (validate_config lnd d) >>= λ _. ok d) h in
      let (_, valid, same) = >>=-eq-ok (replace text (validate_config lnd d)) (λ _. ok d) rest in
      let e : d ≡ c = ok-injective same in
      (
        rw (← e) (apply_options-IsApplied opts (default_config lnd) d applied),
        rw (← e) (replace-eq-ok text (validate_config lnd d) valid),
      )

  build-eq-ok :
      (r : Result (Config S)) (s t : S) (b : Boltnd) (c : Config S)
      → build lnd r s ≡ (ok (b, c), t)
      → (r ≡ ok c) × (b ≡ new_daemon lnd) × (t ≡ setup_loggers c.setup_logger s)
  unfolding build
  build-eq-ok (ok d) s t b c h =
      let same : (new_daemon lnd, d) ≡ (b, c) = ok-injective (ap (λ p. p.0) h) in
      let e : d ≡ c = ap (λ p. p.1) same in
      (
        ap ok e,
        sym (ap (λ p. p.0) same),
        sym (ap (λ p. p.1) h) ∙ ap (λ x. setup_loggers x.setup_logger s) e,
      )
  build-eq-ok (err e) s t b c h = absurd (err_not_ok (ap (λ p. p.0) h))
    where
      err_not_ok : {x : Boltnd × Config S} → ◌≡◌ {A = Result (Boltnd × Config S)} (err e) (ok x) → ⊥
      err_not_ok h = cc
  build-eq-ok panic s t b c h = absurd (panic_not_ok (ap (λ p. p.0) h))
    where
      panic_not_ok : {x : Boltnd × Config S} → ◌≡◌ {A = Result (Boltnd × Config S)} panic (ok x) → ⊥
      panic_not_ok h = cc
  build-eq-ok stuck s t b c h = absurd (stuck_not_ok (ap (λ p. p.0) h))
    where
      stuck_not_ok : {x : Boltnd × Config S} → ◌≡◌ {A = Result (Boltnd × Config S)} stuck (ok x) → ⊥
      stuck_not_ok h = cc

  -- NewBoltnd returns a daemon and its configuration exactly if every option succeeds, in its order and from the
  -- default configuration on, and the configuration that they leave is valid; the daemon is then not started, and
  -- the loggers have been set up with the function that the last configuration holds.
  pub new_boltnd-IsValid :
      (opts : List (ConfigOption S)) (s t : S) (b : Boltnd) (c : Config S)
      → new_boltnd lnd opts s ≡ (ok (b, c), t) ↔ (
          (IsApplied opts (default_config lnd) c)
          × (IsValid c)
          × (b ≡ new_daemon lnd)
          × (t ≡ setup_loggers c.setup_logger s))
  unfolding new_boltnd configure build
  new_boltnd-IsValid opts s t b c = (
    λ h.
        let (made, fresh, set_up) = build-eq-ok (configure lnd opts) s t b c h in
        let (applied, valid) = configure-eq-ok opts c made in
        (applied, (validate_config-IsValid c).0 valid, fresh, set_up),
    λ (applied, valid, fresh, set_up). rw (
      applied-eq-ok opts (default_config lnd) c applied,
      (validate_config-IsValid c).1 valid,
      fresh,
      set_up,
    ),
  )

  -- The package's options by what they do.
  abbrev pub option_of : Choice S → ConfigOption S
  option_of (lnd_config cfg) = option_lnd_config cfg
  option_of (lnd_client client) = option_lnd_client client
  option_of lnd_logger = option_lnd_logger lnd
  option_of (setup_logger setup) = option_setup_logger setup
  option_of (request_shutdown shutdown) = option_request_shutdown shutdown

  -- What Start comes to, by what the attempts come to.
  abbrev pub outcome :
      Result (Unit {0}) → Result (Unit {0}) → Result (Unit {0}) → Result (Unit {0}) × Boltnd
  outcome node_ecdh messenger (ok _) = (
    replace text (start node_ecdh messenger new_server).0,
    record (new_daemon lnd) {
      started = true;
      lnd = true;
      rpc_server = (start node_ecdh messenger new_server).1;
    },
  )
  outcome node_ecdh messenger (err e) =
      (err (wrapped e), record (new_daemon lnd) { started = true })
  outcome node_ecdh messenger panic = (panic, record (new_daemon lnd) { started = true })
  outcome node_ecdh messenger stuck = (stuck, record (new_daemon lnd) { started = true })

  start_server-outcome :
      (node_ecdh messenger r : Result (Unit {0}))
      → start_server (wrap r) node_ecdh messenger (record (new_daemon lnd) { started = true })
        ≡ outcome node_ecdh messenger r
  unfolding start_server
  start_server-outcome node_ecdh messenger (ok _) = refl
  start_server-outcome node_ecdh messenger (err e) = refl
  start_server-outcome node_ecdh messenger panic = refl
  start_server-outcome node_ecdh messenger stuck = refl

  connect_first-keeps :
      (cfg : LndConfig) (listeners : List Bytes) (c : Config S)
      → (connect_first cfg listeners c).1.lnd_retires ≡ c.lnd_retires
  unfolding connect_first
  connect_first-keeps cfg [] c = refl
  connect_first-keeps cfg (l ∷ ls) c = refl

  option-keeps : (o : Choice S) (c : Config S) → (option_of o c).1.lnd_retires ≡ c.lnd_retires
  unfolding option_lnd_config option_lnd_client option_lnd_logger option_setup_logger
      option_request_shutdown
  option-keeps (lnd_config cfg) c = connect_first-keeps cfg cfg.rpc_listeners c
  option-keeps (lnd_client client) c = refl
  option-keeps lnd_logger c = refl
  option-keeps (setup_logger setup) c = refl
  option-keeps (request_shutdown shutdown) c = refl

  applied-keeps :
      (os : List (Choice S)) (c d : Config S)
      → IsApplied (map option_of os) c d
      → d.lnd_retires ≡ c.lnd_retires
  applied-keeps [] c d h = ap (λ x. x.lnd_retires) (sym h)
  applied-keeps (o ∷ os) c d (_, rest) =
      applied-keeps os (option_of o c).1 d rest ∙ option-keeps o c

  -- A daemon that NewBoltnd builds from options of the package makes up to five attempts to connect to lnd, one
  -- after the other. The first that succeeds is the last that it makes: Start then starts the server and answers
  -- as that does. If all five fail, Start answers with the error of the fifth, wrapped, and the daemon holds no
  -- connection and has not touched its server.
  pub new_boltnd-connected :
      (os : List (Choice S)) (s t : S) (b : Boltnd) (c : Config S) (connect : ℕ → Result (Unit {0}))
      (node_ecdh messenger : Result (Unit {0}))
      → new_boltnd lnd (map option_of os) s ≡ (ok (b, c), t)
      → start_daemon connect c.lnd_retires node_ecdh messenger b
        ≡ outcome node_ecdh messenger
            (first_of (connect 0 ∷ connect 1 ∷ connect 2 ∷ connect 3 ∷ connect 4 ∷ []))
  unfolding start_daemon
  new_boltnd-connected os s t b c connect node_ecdh messenger built =
      let (applied, _, fresh, _) = (new_boltnd-IsValid (map option_of os) s t b c).0 built in
      let four : c.lnd_retires ≡ 4 = applied-keeps os (default_config lnd) c applied in
      rw (four, fresh, attempts-connect_to_lnd connect 4 (omega arith))
        (start_server-outcome node_ecdh messenger _)
