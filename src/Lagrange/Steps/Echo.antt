-- ===== src/Lagrange/Steps/Echo.antt =====
-- crates/ferroq-gateway/src/adapter/lagrange.rs: which answer a call gets.
use ferroq.Prelude.{
  ℕ, suc, ◌+◌, ◌%◌, ◌^◌, String, ◌≡◌, refl, sym, ◌∙◌, ap, Bool, Option, none, some, arith, eq_ℕ,
  eq_String, Option-cases, inl, inr, ==_iff,
}
use ferroq.Prelude.Int.{ℤ}
use ferroq.Prelude.HashMap
use ferroq.Prelude.HashMap.{get-insert, get-remove}
use ferroq.Prelude.Decimal.{to_string}
use ferroq.Core.External.{External}
use ferroq.Core.Event.{Event}
use ferroq.Core.Api.{ApiRequest, ApiResponse}
use ferroq.Lagrange.{LagrangeAdapter, World, WsMessage, pong, send, send_close}
use ferroq.Lagrange.Call.{Writer, Waiting, begin_call, poll_call}
use ferroq.Lagrange.Reader.{
  Source, Incoming, text, ping, other, failed, read, resolve, exit_reader, send_pong, send_event,
  learn, api_response, echo_text,
}
use ferroq.Lagrange.Steps.{fresh}
use ferroq.Lagrange.Steps.Cases.{
  handle_text_message-cases, begin_call-cases, poll_call-cases, call_of,
}

-- The echo of the call of this number.
unfoldable pub echo_of : ℕ → String
unfolding to_string
echo_of id = to_string (id % 2 ^ 64)

module _ {F : External} (S : Source F) where
  -- What is registered and what has been answered is so under the call's own echo.
  pub record IsMatched (w : World F) : Type 0 where
    pub counted : w.echo_counter ≡ w.next_call % 2 ^ 64
    pub own_echo :
        (echo : String) (id : ℕ)
        → HashMap.get w.inner.pending_calls echo ≡ some id
        → echo ≡ echo_of id
    pub own_answer :
        (id : ℕ) (response : ApiResponse F)
        → HashMap.get w.replies id ≡ some response
        → echo_text S.json response.echo ≡ some (echo_of id)

  pub fresh-IsMatched : (listening : ℕ → Bool) → IsMatched (fresh listening)
  unfolding HashMap.get fresh
  fresh-IsMatched listening = record {
    counted = refl;
    own_echo = λ echo id h. cc;
    own_answer = λ id response h. cc;
  }

  module _ (R : Writer F) (a : LagrangeAdapter) (w : World F) (v : IsMatched w) where
    in_turn-counted : (w.echo_counter + 1) % 2 ^ 64 ≡ suc w.next_call % 2 ^ 64
    in_turn-counted = omega (arith, v.counted)

    pub call_of-echo_of : (request : ApiRequest F) → (call_of w request).echo ≡ echo_of w.next_call
    unfolding call_of echo_of
    call_of-echo_of request = ap to_string v.counted

    inserted :
        (request : ApiRequest F) (echo : String) (id : ℕ)
        → HashMap.get
            (HashMap.insert (call_of w request).echo w.next_call w.inner.pending_calls)
            echo
          ≡ some id
        → echo ≡ echo_of id
    inserted request echo id h = ground (
      arith,
      get-insert (call_of w request).echo echo w.next_call w.inner.pending_calls,
      ==_iff (call_of w request).echo echo,
      call_of-echo_of request,
      v.own_echo echo id,
    )

    pub begin_call-IsMatched : (request : ApiRequest F) → IsMatched (begin_call R a request w).1
    unfolding call_of
    begin_call-IsMatched request =
        begin_call-cases R a request w (λ r. IsMatched r.1)
          (λ e other. record {
            counted = in_turn-counted;
            own_echo = v.own_echo;
            own_answer = v.own_answer;
          })
          (record {
            counted = in_turn-counted;
            own_echo = λ echo id h. ground (
              arith,
              get-remove (call_of w request).echo echo
                  (HashMap.insert (call_of w request).echo w.next_call w.inner.pending_calls),
              inserted request echo id,
            );
            own_answer = v.own_answer;
          })
          (record {
            counted = in_turn-counted;
            own_echo = inserted request;
            own_answer = v.own_answer;
          })
          (λ log. record {
            counted = in_turn-counted;
            own_echo = inserted request;
            own_answer = v.own_answer;
          })

    resolve-IsMatched :
        (value : F.Value) (echo : String)
        → echo_text S.json (S.json.get value "echo") ≡ some echo
        → IsMatched (resolve echo (api_response S value) w)
    unfolding resolve api_response
    resolve-IsMatched value echo h = elim (Option-cases (HashMap.get w.inner.pending_calls echo)) [
      | inl e ↦ rw (e, resolve) v
      | inr (id, e) ↦
          rw (e, resolve)
            (record {
              counted = v.counted;
              own_echo = λ echo' id' g.
                  ground (arith, get-remove echo echo' w.inner.pending_calls, v.own_echo echo' id');
              own_answer = λ id' response g. ground (
                arith,
                get-insert id id' (api_response S value) w.replies,
                ==_iff id id',
                v.own_answer id' response,
                v.own_echo echo id e,
                h,
              );
            })
    ]

    pub poll_call-IsMatched : (call : Waiting) (b : Bool) → IsMatched (poll_call a call b w).1
    poll_call-IsMatched call b =
        poll_call-cases a call b w (λ r. IsMatched r.1)
          (λ response h. record {
            counted = v.counted;
            own_echo = v.own_echo;
            own_answer = λ id answer g.
                ground (arith, get-remove call.id id w.replies, v.own_answer id answer);
          })
          (λ e. record {
            counted = v.counted;
            own_echo = λ echo id h.
                ground (arith, get-remove call.echo echo w.inner.pending_calls, v.own_echo echo id);
            own_answer = v.own_answer;
          })
          (λ e h. v) v

    pub put-IsMatched :
        (w' : World F)
        → w'.echo_counter ≡ w.echo_counter
        → w'.next_call ≡ w.next_call
        → w'.inner.pending_calls ≡ w.inner.pending_calls
        → w'.replies ≡ w.replies
        → IsMatched w'
    put-IsMatched w' c n p r = record {
      counted = c ∙ v.counted ∙ ap (λ m. m % 2 ^ 64) (sym n);
      own_echo = λ echo id h. v.own_echo echo id (rw (p) at h);
      own_answer = λ id response h. v.own_answer id response (rw (r) at h);
    }

    send-IsMatched : (tx : ℕ) (m : WsMessage) → IsMatched (send tx m w).1
    unfolding send
    send-IsMatched tx m =
        put-IsMatched (send tx m w).1 (ground arith) (ground arith) (ground arith) (ground arith)

    send_pong-IsMatched : (tx : Option ℕ) (body : String) → IsMatched (send_pong tx body w)
    unfolding send_pong
    send_pong-IsMatched none body = v
    send_pong-IsMatched (some tx) body = send-IsMatched tx (pong body)

    pub send_close-IsMatched : (tx : Option ℕ) → IsMatched (send_close tx w)
    unfolding send_close
    send_close-IsMatched none = v
    send_close-IsMatched (some tx) = send-IsMatched tx WsMessage.close

    exit_reader-IsMatched : (n : ℕ) → IsMatched (exit_reader n w)
    unfolding exit_reader
    exit_reader-IsMatched n =
        put-IsMatched (exit_reader n w) (ground arith) (ground arith) (ground arith) (ground arith)

    send_event-IsMatched :
        (tx : Option ℕ) (event : Event F) (z : ℤ) → IsMatched (send_event tx event (learn z w))
    send_event-IsMatched none event z =
        put-IsMatched (send_event none event (learn z w)) (ground arith) (ground arith)
          (ground arith) (ground arith)
    send_event-IsMatched (some tx) event z =
        put-IsMatched (send_event (some tx) event (learn z w)) (ground arith) (ground arith)
          (ground arith) (ground arith)

    pub read-IsMatched : (n : ℕ) (m : Incoming) → IsMatched (read S n m w)
    unfolding read
    read-IsMatched n (text body) =
        handle_text_message-cases S IsMatched w v resolve-IsMatched send_event-IsMatched body
    read-IsMatched n (ping body) = send_pong-IsMatched w.inner.ws_writer_tx body
    read-IsMatched n other = v
    read-IsMatched n Incoming.close = exit_reader-IsMatched n
    read-IsMatched n (failed e) = exit_reader-IsMatched n
