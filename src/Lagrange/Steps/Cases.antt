-- ===== src/Lagrange/Steps/Cases.antt =====
-- crates/ferroq-gateway/src/adapter/lagrange.rs: the branches of the handlers, as rules by which a
-- claim about the world that a handler leaves is proved.
use Prim.Native.Char.{code}
use text.Mathlib.TextLemmas.{cons-append}
use Prim.Native.String.{◌++◌ as str_append}
use Prim.Native.Nat.{◌+◌, ◌%◌, ◌^◌}
use ferroq.Prelude.{
  ℕ, suc, ◌≡◌, ◌≢◌, refl, ap, nat_eq, String, Bool, true, false, ◌&&◌, Option, none, some, List,
  ◌⊎◌, inl, inr, Bool-cases, Option-cases, if◌then◌else◌, is_some, eq_ℕ, eq_String,
}
use ferroq.Prelude.Int.{ℤ}
use ferroq.Prelude.Decimal.{to_string}
use ferroq.Prelude.HashMap
use ferroq.Core.External.{External}
use ferroq.Core.Error.{GatewayError, connection, Result, ok, err, Result-cases}
use ferroq.Core.Api.{ApiRequest, ApiResponse}
use ferroq.Core.Event
use ferroq.Core.Event.{Event}
use ferroq.Core.Adapter.{AdapterState, state_text, is_connected}
use ferroq.OnebotV11.{parse_event}
use ferroq.Lagrange.{LagrangeAdapter, World, WsMessage, send}
use ferroq.Lagrange.Call.{
  not_connected, Writer, Waiting, begin_call, next_echo, start, register_call, send_request,
  insert_pending, remove_pending, writer_closed, no_writer, poll_call, has_sender, timed_out,
  channel_dropped,
}
use ferroq.Lagrange.Reader.{
  Source, handle_text_message, handle_api_response, handle_event, resolve, echo_text, api_response,
  send_event, learn,
}

Sum-cases {ℓ} : {A B : Type ℓ} (s : A ⊎ B) → ((a : A) × (s ≡ inl a)) ⊎ ((b : B) × (s ≡ inr b))
Sum-cases (inl a) = inl (a, refl)
Sum-cases (inr b) = inr (b, refl)

module _ {F : External} (S : Source F) (P : World F → Type 0) (w : World F) (same : P w)
    (resolved : (v : F.Value) (echo : String)
      → echo_text S.json (S.json.get v "echo") ≡ some echo
      → P (resolve echo (api_response S v) w))
    (passed : (tx : Option ℕ) (event : Event F) (z : ℤ) → P (send_event tx event (learn z w))) where
  handle_api_response-cases : (v : F.Value) → P (handle_api_response S v w)
  unfolding handle_api_response
  handle_api_response-cases v = elim (Option-cases (echo_text S.json (S.json.get v "echo"))) [
    | inl h ↦ rw (h, handle_api_response) same
    | inr (echo, h) ↦ rw (h, handle_api_response) (resolved v echo h)
  ]

  handle_event-cases : (v : F.Value) → P (handle_event S v w)
  unfolding handle_event
  handle_event-cases v = elim (Result-cases (parse_event S.json S.timestamp_opt v S.now S.new_id)) [
    | inl (event, h) ↦ rw (h, handle_event) (passed w.inner.event_tx event (Event.self_id event))
    | inr (e, h) ↦ rw (h, handle_event) same
  ]

  abbrev answered : F.Value → Bool
  answered v = is_some (S.json.get v "status") && is_some (S.json.get v "echo")

  handled-cases :
      (v : F.Value) (b c : Bool)
      → P (if b then handle_api_response S v w else if c then handle_event S v w else w)
  handled-cases v true c = handle_api_response-cases v
  handled-cases v false true = handle_event-cases v
  handled-cases v false false = same

  pub handle_text_message-cases : (body : String) → P (handle_text_message S body w)
  unfolding handle_text_message
  handle_text_message-cases body = elim (Sum-cases (S.from_str body)) [
    | inl (e, h) ↦ rw (h, handle_text_message) same
    | inr (v, h) ↦
        rw (h, handle_text_message)
          (handled-cases v (answered v) (is_some (S.json.get v "post_type")))
  ]

-- The world of a call whose turn it is, and the call.
abbrev pub in_turn : {F : External} → World F → World F
in_turn w = record w { echo_counter = (w.echo_counter + 1) % 2 ^ 64; next_call = suc w.next_call }

unfoldable pub call_of : {F : External} → World F → ApiRequest F → Waiting
unfolding to_string
call_of w request = record {
  id = w.next_call;
  echo = to_string w.echo_counter;
  action = request.action;
}

connection_text : GatewayError → String
connection_text (connection e) = e
connection_text _ = ""

-- Whether a text begins with an `a`.
begins_with_a : String → Bool
begins_with_a String.[] = false
begins_with_a (String.◌∷◌ c s) = nat_eq (code c) b'a'

not_connected-writer_closed :
    (name : String) (state : AdapterState) → not_connected name state ≢ writer_closed
unfolding connection_text begins_with_a not_connected
not_connected-writer_closed name state e =
    adapter_text
      (str_append name
        (str_append "' is not connected (state: " (str_append (state_text state) ")")))
      (ap connection_text e)
  where
    adapter_text : (rest : String) → str_append "adapter '" rest ≢ "ws writer channel closed"
    adapter_text rest h =
        cc (ap begins_with_a (cons-append "a" "dapter '" rest), ap begins_with_a h)

module _ {F : External} (R : Writer F) (a : LagrangeAdapter) (request : ApiRequest F) (w : World F)
    (P : Result Waiting × World F → Type 0)
    (unregistered : (e : GatewayError) → e ≢ writer_closed → P (err e, in_turn w))
    (dropped : P (
      err no_writer,
      remove_pending
          (call_of w request).echo
          (insert_pending (call_of w request).echo (call_of w request).id (in_turn w)),
    ))
    (kept : P (
      err writer_closed,
      insert_pending (call_of w request).echo (call_of w request).id (in_turn w),
    ))
    (sent : (log : List (ℕ × WsMessage))
      → P (
        ok (call_of w request),
        record (insert_pending (call_of w request).echo (call_of w request).id (in_turn w)) {
          written = log;
        },
      )) where
  abbrev registered : World F
  registered = insert_pending (call_of w request).echo (call_of w request).id (in_turn w)

  send_request-cases :
      (tx : Option ℕ) (json : String) → P (send_request tx (call_of w request) json registered)
  unfolding send_request send call_of
  send_request-cases none json = dropped
  send_request-cases (some tx) json = elim (Bool-cases (w.writers tx)) [
    | inl h ↦ rw (h, send_request, send) (sent _)
    | inr h ↦ rw (h, send_request, send) kept
  ]

  start-cases : (r : String ⊎ String) → P (start a (call_of w request) r (in_turn w))
  unfolding start register_call call_of
  start-cases (inl e) = unregistered _ (λ h. cc)
  start-cases (inr json) = elim (Bool-cases (is_connected w.inner.state)) [
    | inl h ↦ rw (h, start, register_call) (send_request-cases w.inner.ws_writer_tx json)
    | inr h ↦
        rw (h, start, register_call)
          (unregistered _ (not_connected-writer_closed a.name w.inner.state))
  ]

  pub begin_call-cases : P (begin_call R a request w)
  unfolding begin_call next_echo call_of
  begin_call-cases = start-cases (R.request_json _)

module _ {F : External} (a : LagrangeAdapter) (call : Waiting) (expired : Bool) (w : World F)
    (P : Option (Result (ApiResponse F)) × World F → Type 0)
    (answered : (response : ApiResponse F)
      → HashMap.get w.replies call.id ≡ some response
      → P (some (ok response), record w { replies = HashMap.remove call.id w.replies }))
    (over : expired ≡ true
      → P (some (err (timed_out call.action a.api_timeout)), remove_pending call.echo w))
    (waits : expired ≡ false → has_sender call.id w.inner.pending_calls ≡ true → P (none, w))
    (gone : P (some (err channel_dropped), w)) where
  unanswered-cases :
      (sender : Bool)
      → has_sender call.id w.inner.pending_calls ≡ sender
      → (b : Bool) → expired ≡ b
      → P (
          if sender
          then if b
            then (some (err (timed_out call.action a.api_timeout)), remove_pending call.echo w)
            else (none, w)
          else (some (err channel_dropped), w))
  unanswered-cases false h b e = gone
  unanswered-cases true h true e = over e
  unanswered-cases true h false e = waits e h

  pub poll_call-cases : P (poll_call a call expired w)
  unfolding poll_call
  poll_call-cases = elim (Option-cases (HashMap.get w.replies call.id)) [
    | inr (response, h) ↦ rw (h, poll_call) (answered response h)
    | inl h ↦
        rw (h, poll_call)
          (unanswered-cases (has_sender call.id w.inner.pending_calls) refl expired refl)
  ]
