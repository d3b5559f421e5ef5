-- ===== src/Core/Api.antt =====
-- crates/ferroq-core/src/api.rs: API requests and responses. The field `data` of a response is
-- spelled `payload`.
use ferroq.Prelude.{String, Option, none}
use ferroq.Prelude.Int.{ℤ, pos}
use ferroq.Core.External.{External}

pub record ApiRequest (F : External) : Type 0 where
  pub action : String
  pub params : F.Value
  pub echo : Option F.Value
  pub self_id : Option ℤ

pub record ApiResponse (F : External) : Type 0 where
  pub status : String
  pub retcode : ℤ
  pub payload : F.Value
  pub message : String
  pub echo : Option F.Value

-- `ApiResponse::ok`, `fail` (over the value `Value::Null`) and `with_echo`
unfoldable pub success : {F : External} → F.Value → ApiResponse F
success v = record { status = "ok"; retcode = pos 0; payload = v; message = ""; echo = none }

unfoldable pub fail : {F : External} → F.Value → ℤ → String → ApiResponse F
fail null retcode message = record {
  status = "failed";
  retcode = retcode;
  payload = null;
  message = message;
  echo = none;
}

unfoldable pub with_echo : {F : External} → Option F.Value → ApiResponse F → ApiResponse F
with_echo echo r = record r { echo = echo }
