-- ===== src/Server/Reverse.antt =====
-- crates/ferroq-gateway/src/server/onebot_v11.rs: the loop of `reverse_ws_task`, which connects
-- to a target again and again, and `http_post_task`. The library of WebSockets, HTTP and the
-- signature are parameters. What happens on a connection is as in Server/Connection.
pub mod Waits
pub mod Posts
use Prim.Native.String.{◌++◌}
use ferroq.Prelude.{
  ℕ, ◌*◌, min, String, Bool, true, false, Option, none, some, List, [], ◌∷◌, ◌==◌, eq_String,
  if◌then◌else◌,
}
use ferroq.Prelude.Int.{ℤ}
use ferroq.Prelude.Decimal.{int_text}
use ferroq.Core.External.{External}
use ferroq.Core.Config.{WsReverseTarget}
use ferroq.Core.Event
use ferroq.Core.Event.{Event}

-- `into_client_request`, and the header `Authorization` if its value is a valid one.
pub record Handshake : Type 1 where
  pub Request : Type 0
  pub into_client_request : String → Option Request
  pub authorize : Request → String → Option Request

abbrev pub base_interval : ℕ
base_interval = 5

abbrev pub max_interval : ℕ
max_interval = 120

-- `(current_interval * 2).min(max_interval)`
unfoldable pub next_interval : ℕ → ℕ
next_interval current = min (current * 2) max_interval

-- The token of the target, or else the global one.
unfoldable pub reverse_token : WsReverseTarget → String → String
reverse_token target access_token =
    if target.access_token == "" then access_token else target.access_token

module _ (H : Handshake) where
  unfoldable pub build_reverse_ws_request : WsReverseTarget → String → Option H.Request
  unfolding reverse_token
  build_reverse_ws_request target access_token = elim (H.into_client_request target.url) [
    | none ↦ none
    | some request ↦
        let token = reverse_token target access_token in
        if token == "" then some request else elim (H.authorize request ("Bearer " ++ token)) [
          | none ↦ some request
          | some signed ↦ some signed
        ]
  ]

  -- What one round of the loop meets: the global token when it begins, and whether a request is
  -- answered by a connection, which is then lost.
  pub record Meets : Type 0 where
    pub token : String
    pub accepts : H.Request → Bool

  -- What it did: the request that it sent, whether it was connected, and the seconds it slept.
  pub record Round : Type 0 where
    pub sent : Option H.Request
    pub connected : Bool
    pub slept : ℕ

  abbrev round_with : ℕ → Meets → Option H.Request → Round
  round_with current m none = record { sent = none; connected = false; slept = current }
  round_with current m (some request) =
      let accepted = m.accepts request in
      record {
        sent = some request;
        connected = accepted;
        slept = if accepted then base_interval else current;
      }

  unfoldable pub reverse_round : WsReverseTarget → ℕ → Meets → Round
  unfolding build_reverse_ws_request
  reverse_round target current m = round_with current m (build_reverse_ws_request target m.token)

  -- The rounds of the loop from an interval on.
  unfoldable pub reverse_rounds : WsReverseTarget → ℕ → List Meets → List Round
  unfolding reverse_round next_interval
  reverse_rounds target current [] = []
  reverse_rounds target current (m ∷ ms) =
      let r = reverse_round target current m in r ∷ reverse_rounds target (next_interval r.slept) ms

  unfoldable pub reverse_ws_task : WsReverseTarget → List Meets → List Round
  unfolding reverse_rounds
  reverse_ws_task target = reverse_rounds target base_interval

-- `event_rx.recv()`
pub data Received (F : External) : Type 0 where
  event : Event F → Received F
  lagged : ℕ → Received F
  closed : Received F

pub record Post : Type 0 where
  pub url : String
  pub content_type : String
  pub x_self_id : String
  pub x_signature : Option String
  pub body : String

-- `body_of` is the text of `event_to_json`; `hmac` is the signature in hexadecimal digits, or
-- `none` if the key has no valid length.
module _ {F : External} (body_of : Event F → String) (hmac : String → String → Option String)
    (url secret : String) where
  abbrev sign : String → Option String
  sign body = elim (hmac secret body) [ none ↦ none | some sig ↦ some ("sha1=" ++ sig) ]

  unfoldable pub post_event : Event F → Post
  unfolding int_text Event.self_id
  post_event e =
      let body = body_of e in
      record {
        url = url;
        content_type = "application/json";
        x_self_id = int_text (Event.self_id e);
        x_signature = if secret == "" then none else sign body;
        body = body;
      }

  -- The posts of the task, whatever comes of each.
  unfoldable pub http_post_task : List (Received F) → List Post
  unfolding post_event
  http_post_task [] = []
  http_post_task (event e ∷ rest) = post_event e ∷ http_post_task rest
  http_post_task (lagged n ∷ rest) = http_post_task rest
  http_post_task (closed ∷ rest) = []
