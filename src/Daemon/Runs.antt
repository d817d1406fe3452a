-- ===== src/Daemon/Runs.antt =====
-- Runs of the daemon's start: lnd is there at the third attempt.
use boltnd.Prelude.{
  ℕ, suc, ◌↔◌, some, List, [], ◌∷◌, map, ◌≡◌, refl, true, false, leb, if◌then◌else◌,
}
use boltnd.Prelude.Errors.{Result, ok, err, foreign}
use boltnd.Daemon.{start_daemon}
use boltnd.Daemon.Attempts.{first_of}
use boltnd.Daemon.Config.{
  Config, Lnd, LndConfig, mainnet, client_config, default_config, network_of, new_daemon,
  new_boltnd, setup_loggers, connect_first, network_answer, option_lnd_config, option_lnd_logger,
  option_request_shutdown, configure, apply_options, assert_client, assert_version, validate_config,
  build,
}
use boltnd.Daemon.Built.{
  Choice, lnd_config, lnd_logger, request_shutdown, option_of, IsApplied, IsValid, outcome,
  new_boltnd-IsValid, new_boltnd-connected,
}

abbrev third : ℕ → Result (Unit {0})
third i = if leb 2 i then ok tt else err (foreign 1)

-- An lnd that takes any version; the world counts the loggers.
abbrev lnd : Lnd ℕ
lnd = record {
  macaroon_dir = 1 ∷ [];
  tls_path = 2 ∷ [];
  assert_version_compatible = λ version minimum. ok tt;
  add_sub_logger = λ prefix p n. suc n;
}

-- lnd's own configuration, for mainnet.
abbrev lnd_cfg : LndConfig
lnd_cfg = record {
  rpc_listeners = (7 ∷ []) ∷ (8 ∷ []) ∷ [];
  admin_mac_path = 3 ∷ [];
  tls_cert_path = 4 ∷ [];
  main_net = true;
  test_net3 = false;
  reg_test = false;
}

-- The options of a plugin.
abbrev choices : List (Choice ℕ)
choices = lnd_config lnd_cfg ∷ lnd_logger ∷ request_shutdown (some suc) ∷ []

abbrev configured : Config ℕ
configured = record (default_config lnd) {
  lnd_client_cfg = some (client_config (7 ∷ []) (some mainnet) lnd_cfg);
  setup_logger = some (lnd.add_sub_logger);
  request_shutdown = some suc;
}

-- The five loggers are set up.
is_built : new_boltnd lnd (map (option_of lnd) choices) 0 ≡ (ok (new_daemon lnd, configured), 5)
unfolding new_boltnd configure apply_options option_lnd_config connect_first network_of
    network_answer client_config option_lnd_logger option_request_shutdown validate_config
    assert_client assert_version build setup_loggers
is_built = refl

new_boltnd-IsValid_example :
    new_boltnd lnd (map (option_of lnd) choices) 0 ≡ (ok (new_daemon lnd, configured), 5) ↔ (
      (IsApplied (map (option_of lnd) choices) (default_config lnd) configured)
      × (IsValid lnd configured)
      × (new_daemon lnd ≡ new_daemon lnd)
      × (5 ≡ setup_loggers configured.setup_logger 0))
new_boltnd-IsValid_example =
    new_boltnd-IsValid lnd (map (option_of lnd) choices) 0 5 (new_daemon lnd) configured

new_boltnd-connected_example :
    start_daemon third configured.lnd_retires (ok tt) (ok tt) (new_daemon lnd)
    ≡ outcome lnd (ok tt) (ok tt) (first_of (third 0 ∷ third 1 ∷ third 2 ∷ third 3 ∷ third 4 ∷ []))
new_boltnd-connected_example =
    new_boltnd-connected lnd choices 0 5 (new_daemon lnd) configured third (ok tt) (ok tt) is_built
