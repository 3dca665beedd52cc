-- ===== src/Config.antt =====
-- hobo/config.py: the settings of an environment, from what `tomllib` reads of its file and from the
-- variables of the environment. `int` of a text and of a float are parameters.
mod Paths
mod Environment
pub mod Checked
pub mod Tests
use Prim.Native.Char.{code}
use Prim.Native.Nat.{◌+◌}
use Prim.Native.String.{◌++◌ as ◌^◌}
use hobo.Prelude.{
  ℕ, String, Bool, true, false, Option, none, some, List, [], ◌∷◌, ◌==◌, leb, str_eq, if◌then◌else◌,
  ◌&&◌, ◌||◌, not, Result, ok, err, key_error, type_error, config_error, or_raise, ◌>>=◌,
}
use hobo.Prelude.Dict
use hobo.Prelude.Dict.{Dict}
use hobo.Prelude.Data
use hobo.Prelude.Data.{
  Data, null, boolean, int, float, text, array, object, Items, nil, cons, end, item, text_of,
  float_of, boolean_of, int_of, or_default,
}
use hobo.Core.Ingestor.{member, truthy}
use Paths.{PosixPath, path_of, join, path_text}
use Environment.{Environ, variable, or_else, says_yes}

-- What the language gives: `int(s)`, `int(x)`, and the root of the repository.
pub record Platform (F : Type 0) : Type 0 where
  pub int_of_text : String → Result ℕ
  pub truncate : F → Result ℕ
  pub project_root : String

abbrev pub valid_backends : List String
valid_backends = "paper" ∷ "exchange" ∷ []

-- The values that the file gives are taken as they are, of whatever type.
pub record ExchangeConfig (F : Type 0) : Type 0 where
  pub name : Data F
  pub ws_url : Data F
  pub ws_private_url : Data F
  pub rest_url : Data F
  pub instrument_ids : Data F
  pub demo_trading : Data F
  pub api_key : String
  pub api_secret : String
  pub api_passphrase : String

abbrev pub has_credentials : {F : Type 0} → ExchangeConfig F → Bool
has_credentials c = truthy c.api_key && (truthy c.api_secret && truthy c.api_passphrase)

pub record DurabilityConfig (F : Type 0) : Type 0 where
  pub event_log_path : String
  pub snapshot_path : String
  pub desk_seed_path : String
  pub fsync_interval_ms : Data F

-- The sections with one field are the field.
pub record Config (F : Type 0) : Type 0 where
  pub exchange : ExchangeConfig F
  pub maintenance_margin_rate : Data F
  pub backend : String
  pub durability : DurabilityConfig F
  pub metrics_port : ℕ
  pub replica_mode : Data F

-- `_resolve`
unfoldable pub resolve : String → PosixPath → String
resolve path base = path_text (join base (path_of path))

-- `except KeyError`
abbrev pub config_errors : {A : Type 0} → Result A → Result A
config_errors (err key_error) = err config_error
config_errors r = r

module _ {F : Type 0} where
  -- `_env_bool`
  unfoldable pub env_bool : Environ → String → Data F → Data F
  env_bool environ key default =
      let raw = variable environ key in if truthy raw then boolean (says_yes raw) else default

  -- `ExchangeConfig.from_raw`
  unfoldable pub exchange_from_raw : Data F → Environ → Result (ExchangeConfig F)
  exchange_from_raw raw environ = do
    name ← item raw "name"
    ws_url ← item raw "ws_url"
    ws_private_url ← item raw "ws_private_url"
    rest_url ← item raw "rest_url"
    instrument_ids ← item raw "instruments"
    demo_trading ← Data.get raw "demo_trading"
    ok (record {
      name = name;
      ws_url = ws_url;
      ws_private_url = ws_private_url;
      rest_url = rest_url;
      instrument_ids = instrument_ids;
      demo_trading = elim demo_trading [ none ↦ boolean false | some v ↦ v ];
      api_key = variable environ "EXCHANGE_API_KEY";
      api_secret = variable environ "EXCHANGE_API_SECRET";
      api_passphrase = variable environ "EXCHANGE_API_PASSPHRASE";
    })

  -- A backend that is no text is none of the valid ones.
  abbrev pub valid_backend : Data F → Result String
  valid_backend (text backend) =
      if member backend valid_backends then ok backend else err config_error
  valid_backend _ = err config_error

  -- `ExecutionConfig.from_raw`
  unfoldable pub backend_from_raw : Data F → Result String
  backend_from_raw raw = item raw "backend" >>= valid_backend

  -- `DurabilityConfig.from_raw`. `Path` raises a TypeError for a path that is no text.
  unfoldable pub durability_from_raw : Data F → PosixPath → PosixPath → Result (DurabilityConfig F)
  durability_from_raw raw app_home data_dir = do
    event_log_path ← item raw "event_log_path" >>= text_of
    snapshot_path ← item raw "snapshot_path" >>= text_of
    desk_seed_path ← item raw "desk_seed_path" >>= text_of
    fsync_interval_ms ← item raw "fsync_interval_ms"
    ok (record {
      event_log_path = resolve event_log_path data_dir;
      snapshot_path = resolve snapshot_path data_dir;
      desk_seed_path = resolve desk_seed_path app_home;
      fsync_interval_ms = fsync_interval_ms;
    })

  -- `raw.get("replica", {}).get("mode", False)`
  unfoldable pub replica_default : Data F → Result (Data F)
  replica_default raw = do
    section ← Data.get raw "replica"
    mode ← Data.get (elim section [ none ↦ object end | some v ↦ v ]) "mode"
    ok (elim mode [ none ↦ boolean false | some v ↦ v ])

module _ {F : Type 0} (platform : Platform F) where
  -- `int(v)`
  unfoldable pub int_from : Data F → Result ℕ
  int_from (int k) = ok k
  int_from (boolean b) = ok (if b then 1 else 0)
  int_from (float x) = platform.truncate x
  int_from (text s) = platform.int_of_text s
  int_from _ = err type_error

  abbrev pub app_home : Environ → PosixPath
  app_home environ = or_else (variable environ "APP_HOME") (path_of platform.project_root)

  abbrev pub data_dir : Environ → PosixPath
  data_dir environ =
      or_else (variable environ "DATA_DIR") (join (app_home environ) (path_of "data"))

  -- `ColdPathConfig.from_raw`
  unfoldable pub metrics_port_from_raw : Data F → Environ → Result ℕ
  metrics_port_from_raw raw environ =
      let port = variable environ "METRICS_PORT" in
      if truthy port then platform.int_of_text port else (item raw "metrics_port" >>= int_from)

  -- The `try` block of `Config.from_toml`.
  unfoldable pub sections : Data F → Environ → Result (Config F)
  sections raw environ = do
    exchange ← item raw "exchange" >>= λ r. exchange_from_raw r environ
    rate ← item raw "risk" >>= λ r. item r "maintenance_margin_rate"
    backend ← item raw "execution" >>= backend_from_raw
    durability ←
        item raw "durability" >>= λ r. durability_from_raw r (app_home environ) (data_dir environ)
    metrics_port ← item raw "coldpath" >>= λ r. metrics_port_from_raw r environ
    mode ← replica_default raw
    ok (record {
      exchange = exchange;
      maintenance_margin_rate = rate;
      backend = backend;
      durability = durability;
      metrics_port = metrics_port;
      replica_mode = env_bool environ "REPLICA_MODE" mode;
    })

  -- `Config.from_toml`
  unfoldable pub from_toml : Data F → Environ → Result (Config F)
  from_toml raw environ = do
    config ← config_errors (sections raw environ)
    if str_eq config.backend "exchange" && not (has_credentials config.exchange)
        then err config_error
        else ok config

  -- `Config.load`, where `file` gives what `tomllib.load` makes of the file at a path, if there is one.
  unfoldable pub load :
      (String → Option (Result (Data F))) → Option String → String → Environ → Result (Config F)
  load file env config_dir environ =
      let chosen : String = elim (Dict.get environ "RISK_ENV") [ none ↦ "local" | some e ↦ e ] in
      let name : String = elim env [ none ↦ chosen | some e ↦ if truthy e then e else chosen ] in
      let directory = path_of (resolve config_dir (app_home environ)) in
      let path = path_text (join directory (path_of (name ^ ".toml"))) in
      elim (file path) [
        | none ↦ err config_error
        | some read ↦ read >>= λ raw. from_toml raw environ
      ]
