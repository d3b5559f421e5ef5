-- ===== src/Core/Error.antt =====
-- crates/ferroq-core/src/error.rs: `GatewayError`, and results that may hold one.
use Prim.Native.String.{◌++◌}
use ferroq.Prelude.{◌≡◌, refl, ◌⊎◌, inl, inr, String, Bool, true, false}
use ferroq.Prelude.Int.{ℤ}
use ferroq.Prelude.Decimal.{int_text}

pub data GatewayError : Type 0 where
  connection : String → GatewayError
  backend_api : String → ℤ → String → GatewayError
  config serialization web_socket http storage plugin auth : String → GatewayError
  account_not_found internal : String → GatewayError

-- `impl Display for GatewayError`
unfoldable pub error_text : GatewayError → String
unfolding int_text
error_text (connection e) = "backend connection error: " ++ e
error_text (backend_api action retcode message) =
    "backend API error: " ++ action ++ " returned code " ++ int_text retcode ++ ": " ++ message
error_text (config e) = "configuration error: " ++ e
error_text (serialization e) = "serialization error: " ++ e
error_text (web_socket e) = "websocket error: " ++ e
error_text (http e) = "http error: " ++ e
error_text (storage e) = "storage error: " ++ e
error_text (plugin e) = "plugin error: " ++ e
error_text (auth e) = "authentication error: " ++ e
error_text (account_not_found e) = "account not found: " ++ e
error_text (internal e) = "internal error: " ++ e

-- `Result<T, GatewayError>`
pub data Result {ℓ} (A : Type ℓ) : Type ℓ where
  ok : A → Result A
  err : GatewayError → Result A

infixl 10 ◌>>=◌
abbrev pub ◌>>=◌ {ℓ κ} : {A : Type ℓ} {B : Type κ} → Result A → (A → Result B) → Result B
ok a >>= f = f a
err e >>= f = err e

abbrev pub is_ok {ℓ} : {A : Type ℓ} → Result A → Bool
is_ok (ok a) = true
is_ok (err e) = false

-- A split that keeps the equation.
pub Result-cases {ℓ} :
    {A : Type ℓ} (r : Result A) → ((a : A) × (r ≡ ok a)) ⊎ ((e : GatewayError) × (r ≡ err e))
Result-cases (ok a) = inl (a, refl)
Result-cases (err e) = inr (e, refl)
