-- ===== src/Tests/Core.antt =====
-- Validation, reload and redaction of a concrete configuration.
use ferroq.Prelude.{◌≡◌, refl, ◌↔◌, ◌⊎◌, inr, String, true, false, none, some, [], ◌∷◌}
use ferroq.Core.Config.{
  AppConfig, default_server, default_storage, default_dedup, default_logging, default_backend,
  OneBotV11Config,
}
use ferroq.Core.Validation.{validate, has_errors, validate_backend, valid_scheme, push_if, ◌then◌}
use ferroq.Core.Validation.Sound.{Sound, validate-has_errors_iff}
use ferroq.Middleware.Text.{bytes}
use ferroq.Management.{ManagementState, shown, handle_reload, handle_config, redact}
use ferroq.Management.Reload.{
  Reloaded, with_settings, Holds, handle_reload-Sound, handle_reload-cases,
}
use ferroq.Management.Redaction.{IsRedacted, handle_config-shown}
use ferroq.Tests.Data.{demo, local}

abbrev onebot : OneBotV11Config
onebot = record {
  enabled = true;
  http = true;
  ws = true;
  ws_reverse = [];
  http_post = record { url = "http://localhost:5700"; secret = "s3cret" } ∷ [];
}

abbrev config : AppConfig demo
config = record {
  server = record default_server { access_token = "key" };
  accounts =
      record { name = "one"; backend = local; fallback = none }
      ∷ record {
        name = "two";
        backend = default_backend "napcat" "WSS://host";
        fallback = some local;
      }
      ∷ [];
  protocols = record { onebot_v11 = some onebot; onebot_v12 = none; milky = none; satori = none };
  storage = default_storage;
  dedup = default_dedup;
  plugins = [];
  logging = default_logging;
}

no_errors : has_errors (validate config) ≡ false
unfolding has_errors validate validate_backend push_if ◌then◌ valid_scheme
no_errors = refl

-- Two accounts of one name.
twice :
    has_errors (
      validate (record config {
        accounts =
            record { name = "one"; backend = local; fallback = none }
            ∷ record { name = "one"; backend = local; fallback = none }
            ∷ [];
      }))
    ≡ true
unfolding has_errors validate validate_backend push_if ◌then◌ valid_scheme
twice = refl

validate-has_errors_iff_example : (has_errors (validate config) ≡ false) ↔ Sound config
validate-has_errors_iff_example = validate-has_errors_iff config

config-Sound : Sound config
config-Sound = (validate-has_errors_iff config).0 no_errors

abbrev state : ManagementState
state = record {
  config_path = some "config.yaml";
  shared_config = record { token = [] };
  rate_limiter = some (record { tokens = 1; burst = 1; rps = 1 });
}

abbrev file : String → String ⊎ String
file path = inr path

abbrev parsed : String → String ⊎ AppConfig demo
parsed text = inr config

handle_reload-Sound_example :
    Reloaded (handle_reload bytes file parsed state).0
    × ((handle_reload bytes file parsed state).1 ≡ with_settings (bytes "key") config state)
handle_reload-Sound_example =
    handle_reload-Sound bytes file parsed state config
      ("config.yaml", "config.yaml", refl, refl, refl) config-Sound

handle_reload-cases_example :
    ((¬ Reloaded (handle_reload bytes file parsed state).0)
      × ((handle_reload bytes file parsed state).1 ≡ state))
    ⊎ ((c : AppConfig demo) × Holds bytes file parsed state c
        × Sound c
        × Reloaded (handle_reload bytes file parsed state).0
        × ((handle_reload bytes file parsed state).1
            ≡ with_settings (bytes c.server.access_token) c state))
handle_reload-cases_example = handle_reload-cases bytes file parsed state

it_shows : handle_config file parsed state ≡ shown (redact config)
unfolding handle_config
it_shows = refl

handle_config-shown_example :
    (path : String) × (text : String) × (c : AppConfig demo) × (state.config_path ≡ some path)
    × (file path ≡ inr text)
    × (parsed text ≡ inr c)
    × IsRedacted c (redact config)
handle_config-shown_example = handle_config-shown file parsed state (redact config) it_shows
