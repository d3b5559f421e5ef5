-- ===== src/Core/Plugin.antt =====
-- crates/ferroq-core/src/plugin.rs: what a plugin says of an event or a call, and of itself.
use Prim.Native.String.{◌++◌}
use ferroq.Prelude.{String, if◌then◌else◌}
use ferroq.Prelude.Int.{ℤ, pos, negsuc, int_eq}
use ferroq.Prelude.Decimal.{int_text}

pub data PluginResult : Type 0 where
  continue handled drop : PluginResult
  error : String → PluginResult

pub record PluginInfo : Type 0 where
  pub name : String
  pub version : String
  pub description : String
  pub author : String

abbrev pub default_info : PluginInfo
default_info = record { name = "unknown"; version = "0.0.0"; description = ""; author = "" }

unfoldable pub to_i32 : PluginResult → ℤ
to_i32 continue = pos 0
to_i32 handled = pos 1
to_i32 drop = pos 2
to_i32 (error e) = negsuc 0

abbrev unknown_code : ℤ → PluginResult
unfolding int_text
unknown_code code = error ("unknown result code: " ++ int_text code)

unfoldable pub from_i32 : ℤ → PluginResult
unfolding unknown_code
from_i32 code =
    if int_eq code (pos 0)
    then continue
    else if int_eq code (pos 1)
    then handled
    else if int_eq code (pos 2)
    then drop
    else unknown_code code
