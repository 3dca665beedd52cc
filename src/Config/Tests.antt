-- ===== src/Config/Tests.antt =====
-- hobo/config.py at a concrete file and environment.
use hobo.Prelude.{◌≡◌, refl, false, [], ◌∷◌, ok, err, config_error, value_error}
use hobo.Prelude.Dict
use hobo.Prelude.Data
use hobo.Prelude.Data.{
  Data, boolean, int, float, text, array, object, cons, nil, field, end, find, item, text_of,
  float_of, boolean_of, int_of,
}
use hobo.Float.Int.{ℤ, pos}
use hobo.Config.Paths.{path_of, root_of, split, named_parts, join, path_text, slashed}
use hobo.Config.{
  Platform, Config, resolve, env_bool, exchange_from_raw, backend_from_raw, durability_from_raw,
  replica_default, int_from, metrics_port_from_raw, sections, from_toml,
}
use hobo.Config.Environment.{Environ, only_spaces, reads_as, lstrip, says_yes}
use hobo.Config.Checked.{IsSafe, from_toml-IsSafe}

abbrev platform : Platform ℤ
platform = record {
  int_of_text = λ s. err value_error;
  truncate = λ x. err value_error;
  project_root = "/srv/hobo";
}

abbrev settings : Data ℤ
settings = object (
    field "exchange"
      (object (
        field "name" (text "okx") (
          field "ws_url" (text "wss://public") (
            field "ws_private_url" (text "wss://private") (
              field "rest_url" (text "https://rest")
                (field "instruments" (array (cons (text "SWAP") nil)) end))))))
      (field "risk" (object (field "maintenance_margin_rate" (float (pos 1)) end)) (
        field "execution" (object (field "backend" (text "exchange") end)) (
          field "durability"
            (object (
              field "event_log_path" (text "log/events.bin") (
                field "snapshot_path" (text "/var/snapshots") (
                  field "desk_seed_path" (text "config/desk.json")
                    (field "fsync_interval_ms" (int 50) end)))))
            (field "coldpath" (object (field "metrics_port" (int 9100) end)) end)))))

abbrev environ : Environ
environ =
    ("EXCHANGE_API_KEY", "k")
    ∷ ("EXCHANGE_API_SECRET", "s")
    ∷ ("EXCHANGE_API_PASSPHRASE", "p")
    ∷ ("REPLICA_MODE", " Off ")
    ∷ []

abbrev config : Config ℤ
config = record {
  exchange = record {
    name = text "okx";
    ws_url = text "wss://public";
    ws_private_url = text "wss://private";
    rest_url = text "https://rest";
    instrument_ids = array (cons (text "SWAP") nil);
    demo_trading = boolean false;
    api_key = "k";
    api_secret = "s";
    api_passphrase = "p";
  };
  maintenance_margin_rate = float (pos 1);
  backend = "exchange";
  durability = record {
    event_log_path = "/srv/hobo/data/log/events.bin";
    snapshot_path = "/var/snapshots";
    desk_seed_path = "/srv/hobo/config/desk.json";
    fsync_interval_ms = int 50;
  };
  metrics_port = 9100;
  replica_mode = boolean false;
}

loaded : from_toml platform settings environ ≡ ok config
unfolding from_toml sections item find exchange_from_raw text_of Data.get backend_from_raw
    durability_from_raw metrics_port_from_raw Dict.get int_from replica_default env_bool join
    named_parts path_of path_text root_of slashed split lstrip only_spaces reads_as resolve says_yes
loaded = refl

-- Without the secrets the configuration is refused.
refused : from_toml platform settings [] ≡ err config_error
unfolding from_toml sections item find exchange_from_raw text_of Data.get backend_from_raw
    durability_from_raw metrics_port_from_raw Dict.get int_from replica_default env_bool join
    named_parts path_of path_text root_of slashed split lstrip only_spaces reads_as resolve says_yes
refused = refl

from_toml-IsSafe_example : IsSafe platform environ config
from_toml-IsSafe_example = from_toml-IsSafe platform settings environ config loaded
