-- ===== src/Daemon/Config.antt =====
-- config.go, and how NewBoltnd of boltnd.go applies it. `S` is the world that loggers and the caller's closures
-- change.
use boltnd.Prelude.{
  ℕ, ◌^◌, ◌*◌, Bool, true, false, not, Option, none, some, List, [], ◌∷◌, leb, Bytes, if◌then◌else◌,
}
use boltnd.Prelude.Errors.{Error, Result, ok, err, panic, stuck, text, replace, guard, ◌>>=◌, ◌>>◌}
use boltnd.Rpcserver.Life.{new_server}
use boltnd.Daemon.{Boltnd}

-- verrpc.Version
pub record Version : Type 0 where
  pub app_major : ℕ
  pub app_minor : ℕ
  pub app_patch : ℕ
  pub build_tags : List Bytes

-- MinimumLNDVersion: "signrpc", "walletrpc", "chainrpc" and "invoicesrpc".
abbrev pub minimum_lnd_version : Version
minimum_lnd_version = record {
  app_major = 0;
  app_minor = 15;
  app_patch = 0;
  build_tags =
      (115 ∷ 105 ∷ 103 ∷ 110 ∷ 114 ∷ 112 ∷ 99 ∷ [])
      ∷ (119 ∷ 97 ∷ 108 ∷ 108 ∷ 101 ∷ 116 ∷ 114 ∷ 112 ∷ 99 ∷ [])
      ∷ (99 ∷ 104 ∷ 97 ∷ 105 ∷ 110 ∷ 114 ∷ 112 ∷ 99 ∷ [])
      ∷ (105 ∷ 110 ∷ 118 ∷ 111 ∷ 105 ∷ 99 ∷ 101 ∷ 115 ∷ 114 ∷ 112 ∷ 99 ∷ [])
      ∷ [];
}

-- The networks of lndclient that the program names.
pub data Network : Type 0 where
  mainnet testnet regtest : Network

-- lndclient.LndServicesConfig, by the fields that the program sets; a pointer to a version may be nil.
pub record LndClientConfig : Type 0 where
  pub lnd_address : Bytes
  pub macaroon_dir : Bytes
  pub custom_macaroon_path : Bytes
  pub tls_path : Bytes
  pub check_version : Option Version
  pub block_until_chain_synced : Bool
  pub block_until_unlocked : Bool
  pub network : Option Network

-- The packages whose loggers are set up, each standing for its UseLogger too.
pub data Package : Type 0 where
  boltnd_log rpcserver_log onionmsg_log offers_log routes_log : Package

-- The constants Subsystem: "B12-OFRS", "B12-RPCS", "B12-OMS", "B12-OFR" and "B12-RTE".
unfoldable pub subsystem : Package → Bytes
subsystem boltnd_log = 66 ∷ 49 ∷ 50 ∷ 45 ∷ 79 ∷ 70 ∷ 82 ∷ 83 ∷ []
subsystem rpcserver_log = 66 ∷ 49 ∷ 50 ∷ 45 ∷ 82 ∷ 80 ∷ 67 ∷ 83 ∷ []
subsystem onionmsg_log = 66 ∷ 49 ∷ 50 ∷ 45 ∷ 79 ∷ 77 ∷ 83 ∷ []
subsystem offers_log = 66 ∷ 49 ∷ 50 ∷ 45 ∷ 79 ∷ 70 ∷ 82 ∷ []
subsystem routes_log = 66 ∷ 49 ∷ 50 ∷ 45 ∷ 82 ∷ 84 ∷ 69 ∷ []

abbrev pub SetupLogger : Type 0 → Type 0
SetupLogger S = Bytes → Package → S → S

-- A wait is its nanoseconds modulo 2^64.
pub record Config (S : Type 0) : Type 0 where
  pub lnd_client_cfg : Option LndClientConfig
  pub setup_logger : Option (SetupLogger S)
  pub request_shutdown : Option (S → S)
  pub lnd_retires : ℕ
  pub lnd_wait : ℕ

-- What lnd and lndclient supply: the default paths, "localhost:10009" being a literal of ours, and
-- AssertVersionCompatible and AddSubLogger, this one with lnd's root logger and interceptor.
pub record Lnd (S : Type 0) : Type 0 where
  pub macaroon_dir : Bytes
  pub tls_path : Bytes
  pub assert_version_compatible : Version → Version → Result (Unit {0})
  pub add_sub_logger : SetupLogger S

-- lnd.Config, by what the program reads.
pub record LndConfig : Type 0 where
  pub rpc_listeners : List Bytes
  pub admin_mac_path : Bytes
  pub tls_cert_path : Bytes
  pub main_net : Bool
  pub test_net3 : Bool
  pub reg_test : Bool

abbrev pub default_lnd_retries : ℕ
default_lnd_retries = 4

abbrev pub default_lnd_wait : ℕ
default_lnd_wait = 10 * 10 ^ 9

abbrev pub local_address : Bytes
local_address = 108 ∷ 111 ∷ 99 ∷ 97 ∷ 108 ∷ 104 ∷ 111 ∷ 115 ∷ 116 ∷ 58 ∷ 49 ∷ 48 ∷ 48 ∷ 48 ∷ 57 ∷ []

-- ConfigOption: a function that changes the configuration, before an error too.
abbrev pub ConfigOption : Type 0 → Type 0
ConfigOption S = Config S → Result (Unit {0}) × Config S

-- The switch of OptionLNDConfig.
unfoldable pub network_of : LndConfig → Option Network
network_of cfg =
    if cfg.main_net
    then some mainnet
    else if cfg.test_net3
    then some testnet
    else if cfg.reg_test
    then some regtest
    else none

-- The client's configuration that it makes; one with no network is set too, before the error.
unfoldable pub client_config : Bytes → Option Network → LndConfig → LndClientConfig
client_config address network cfg = record {
  lnd_address = address;
  macaroon_dir = [];
  custom_macaroon_path = cfg.admin_mac_path;
  tls_path = cfg.tls_cert_path;
  check_version = some minimum_lnd_version;
  block_until_chain_synced = true;
  block_until_unlocked = true;
  network = network;
}

unfoldable pub network_answer : Option Network → Result (Unit {0})
network_answer none = err text
network_answer (some n) = ok tt

unfoldable pub connect_first :
    {S : Type 0} → LndConfig → List Bytes → Config S → Result (Unit {0}) × Config S
unfolding network_of client_config network_answer
connect_first cfg [] c = (err text, c)
connect_first cfg (address ∷ _) c = (
  network_answer (network_of cfg),
  record c { lnd_client_cfg = some (client_config address (network_of cfg) cfg) },
)

unfoldable pub option_lnd_config : {S : Type 0} → LndConfig → ConfigOption S
unfolding connect_first
option_lnd_config cfg c = connect_first cfg cfg.rpc_listeners c

module _ {S : Type 0} where
  unfoldable pub option_lnd_client : Option LndClientConfig → ConfigOption S
  option_lnd_client client c = (ok tt, record c { lnd_client_cfg = client })

  unfoldable pub option_setup_logger : Option (SetupLogger S) → ConfigOption S
  option_setup_logger setup c = (ok tt, record c { setup_logger = setup })

  unfoldable pub option_request_shutdown : Option (S → S) → ConfigOption S
  option_request_shutdown shutdown c = (ok tt, record c { request_shutdown = shutdown })

  -- setupLoggers
  unfoldable pub setup_loggers : Option (SetupLogger S) → S → S
  unfolding subsystem
  setup_loggers none s = s
  setup_loggers (some setup) s = setup (subsystem routes_log) routes_log (
      setup (subsystem offers_log) offers_log (
        setup (subsystem onionmsg_log) onionmsg_log (
          setup (subsystem rpcserver_log) rpcserver_log
            (setup (subsystem boltnd_log) boltnd_log s))))

  -- The daemon's requestShutdown, which the messenger calls with its error.
  unfoldable pub request_shutdown_of : Option (S → S) → Error → S → S
  request_shutdown_of none e s = s
  request_shutdown_of (some shutdown) e s = shutdown s

  -- The loop of NewBoltnd over the options.
  unfoldable pub apply_options : List (ConfigOption S) → Config S → Result (Config S)
  apply_options [] c = ok c
  apply_options (opt ∷ opts) c = replace text (opt c).0 >> apply_options opts (opt c).1

module _ {S : Type 0} (lnd : Lnd S) where
  abbrev pub default_client_config : LndClientConfig
  default_client_config = record {
    lnd_address = local_address;
    macaroon_dir = lnd.macaroon_dir;
    custom_macaroon_path = [];
    tls_path = lnd.tls_path;
    check_version = some minimum_lnd_version;
    block_until_chain_synced = true;
    block_until_unlocked = true;
    network = some mainnet;
  }

  abbrev pub default_config : Config S
  default_config = record {
    lnd_client_cfg = some default_client_config;
    setup_logger = none;
    request_shutdown = none;
    lnd_retires = default_lnd_retries;
    lnd_wait = default_lnd_wait;
  }

  unfoldable pub option_lnd_logger : ConfigOption S
  option_lnd_logger c = (ok tt, record c { setup_logger = some lnd.add_sub_logger })

  -- The first three checks of Validate.
  unfoldable pub assert_version : Option Version → Result (Unit {0})
  assert_version none = err text
  assert_version (some version) = lnd.assert_version_compatible version minimum_lnd_version

  unfoldable pub assert_client : Option LndClientConfig → Result (Unit {0})
  unfolding assert_version
  assert_client none = err text
  assert_client (some client) = assert_version client.check_version

  unfoldable pub validate_config : Config S → Result (Unit {0})
  unfolding assert_client
  validate_config c = do assert_client c.lnd_client_cfg; guard (not (leb (2 ^ 63) c.lnd_wait)) text

  -- The options and the checks of NewBoltnd.
  unfoldable pub configure : List (ConfigOption S) → Result (Config S)
  unfolding apply_options validate_config
  configure opts = do c ← apply_options opts default_config; replace text (validate_config c); ok c

  abbrev pub new_daemon : Boltnd
  new_daemon = record {
    started = false;
    stopped = false;
    lnd = false;
    lnd_closed = false;
    rpc_server = new_server;
  }

  -- The rest of NewBoltnd; NewServer returns no error.
  unfoldable pub build : Result (Config S) → S → Result (Boltnd × Config S) × S
  unfolding setup_loggers
  build (ok c) s = (ok (new_daemon, c), setup_loggers c.setup_logger s)
  build (err e) s = (err e, s)
  build panic s = (panic, s)
  build stuck s = (stuck, s)

  unfoldable pub new_boltnd : List (ConfigOption S) → S → Result (Boltnd × Config S) × S
  unfolding configure build
  new_boltnd opts s = build (configure opts) s
