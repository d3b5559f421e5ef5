-- ===== src/Core/Config.antt =====
-- crates/ferroq-core/src/config.rs: the configuration, with the defaults that its `Default`
-- implementations and helpers give.
use ferroq.Prelude.{ℕ, String, Bool, true, false, Option, none, List}
use ferroq.Core.External.{External}

pub record RateLimitConfig : Type 0 where
  pub enabled : Bool
  pub requests_per_second : ℕ
  pub burst : ℕ

pub record ServerConfig : Type 0 where
  pub host : String
  pub port : ℕ
  pub access_token : String
  pub dashboard : Bool
  pub rate_limit : RateLimitConfig

pub record BackendConfig : Type 0 where
  pub backend_type : String
  pub url : String
  pub access_token : String
  pub reconnect_interval : ℕ
  pub max_reconnect_interval : ℕ
  pub health_check_interval : ℕ
  pub connect_timeout : ℕ
  pub api_timeout : ℕ

pub record AccountConfig : Type 0 where
  pub name : String
  pub backend : BackendConfig
  pub fallback : Option BackendConfig

pub record WsReverseTarget : Type 0 where
  pub url : String
  pub access_token : String

pub record HttpPostTarget : Type 0 where
  pub url : String
  pub secret : String

pub record OneBotV11Config : Type 0 where
  pub enabled : Bool
  pub http : Bool
  pub ws : Bool
  pub ws_reverse : List WsReverseTarget
  pub http_post : List HttpPostTarget

pub record OneBotV12Config : Type 0 where
  pub enabled : Bool
  pub http : Bool
  pub ws : Bool

pub record MilkyConfig : Type 0 where
  pub enabled : Bool

pub record SatoriConfig : Type 0 where
  pub enabled : Bool
  pub http : Bool
  pub ws : Bool

pub record ProtocolsConfig : Type 0 where
  pub onebot_v11 : Option OneBotV11Config
  pub onebot_v12 : Option OneBotV12Config
  pub milky : Option MilkyConfig
  pub satori : Option SatoriConfig

pub record StorageConfig : Type 0 where
  pub enabled : Bool
  pub path : String
  pub max_days : ℕ

pub record DedupConfig : Type 0 where
  pub enabled : Bool
  pub window_secs : ℕ

pub record PluginConfig (F : External) : Type 0 where
  pub path : String
  pub enabled : Bool
  pub config : F.Value

pub record LoggingConfig : Type 0 where
  pub level : String
  pub file : Option String
  pub console : Bool

pub record AppConfig (F : External) : Type 0 where
  pub server : ServerConfig
  pub accounts : List AccountConfig
  pub protocols : ProtocolsConfig
  pub storage : StorageConfig
  pub dedup : DedupConfig
  pub plugins : List (PluginConfig F)
  pub logging : LoggingConfig

abbrev pub default_rate_limit : RateLimitConfig
default_rate_limit = record { enabled = false; requests_per_second = 100; burst = 200 }

abbrev pub default_server : ServerConfig
default_server = record {
  host = "0.0.0.0";
  port = 8080;
  access_token = "";
  dashboard = true;
  rate_limit = default_rate_limit;
}

abbrev pub default_storage : StorageConfig
default_storage = record { enabled = false; path = "./data/messages.db"; max_days = 30 }

abbrev pub default_dedup : DedupConfig
default_dedup = record { enabled = true; window_secs = 60 }

abbrev pub default_logging : LoggingConfig
default_logging = record { level = "info"; file = none; console = true }

-- A backend of which the file names only the type and the URL.
abbrev pub default_backend : String → String → BackendConfig
default_backend backend_type url = record {
  backend_type = backend_type;
  url = url;
  access_token = "";
  reconnect_interval = 5;
  max_reconnect_interval = 120;
  health_check_interval = 30;
  connect_timeout = 15;
  api_timeout = 30;
}
