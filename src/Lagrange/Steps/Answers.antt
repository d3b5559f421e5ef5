-- ===== src/Lagrange/Steps/Answers.antt =====
-- crates/ferroq-gateway/src/adapter/lagrange.rs: the answers of a whole run.
use ferroq.Prelude.{
  ℕ, ◌+◌, ◌%◌, ◌^◌, ◌<◌, ◌≡◌, ◌≢◌, refl, sym, ◌∙◌, ap, Bool, true, false, some, arith, eq_ℕ,
  eq_String,
}
use ferroq.Prelude.HashMap
use ferroq.Prelude.Decimal.Value.{to_string_inj}
use ferroq.Core.External.{External}
use ferroq.Core.Error.{Result, ok, err}
use ferroq.Core.Api.{ApiRequest, ApiResponse}
use ferroq.Lagrange.{
  LagrangeAdapter, World, disconnect, monitor_look, monitor_attempt, begin_connect, end_connect,
  spawn_ws_tasks,
}
use ferroq.Lagrange.Call.{Writer, Waiting, begin_call, poll_call}
use ferroq.Lagrange.Reader.{Source, echo_text}
use ferroq.Lagrange.Steps.{
  fresh, Step, call_starts, call_polled, message_read, writer_ends, monitor_looks, monitor_tries,
  disconnects, listener_ends, AnyStep, step, connect_starts, connect_ends, Run, done, next,
}
use ferroq.Lagrange.Steps.Cases.{begin_call-cases, poll_call-cases, call_of}
use ferroq.Lagrange.Steps.Echo.{
  IsMatched, echo_of, fresh-IsMatched, begin_call-IsMatched, poll_call-IsMatched, read-IsMatched,
  put-IsMatched, send_close-IsMatched, call_of-echo_of,
}

echo_of-ne : (m n : ℕ) → m ≢ n → m < n + 2 ^ 64 → n < m + 2 ^ 64 → echo_of m ≢ echo_of n
unfolding echo_of
echo_of-ne m n d p q e =
    let same = to_string_inj (m % 2 ^ 64) (n % 2 ^ 64) e in d (omega (arith, same))

module _ {F : External} (S : Source F) (R : Writer F) (a : LagrangeAdapter) where
  disconnect-IsMatched : (w : World F) → IsMatched S w → IsMatched S (disconnect w).1
  unfolding disconnect HashMap.get
  disconnect-IsMatched w v =
      let v' = send_close-IsMatched S R a w v w.inner.ws_writer_tx in
      record { counted = v'.counted; own_echo = λ echo id h. cc; own_answer = v'.own_answer }

  monitor_look-IsMatched : (n : ℕ) (w : World F) → IsMatched S w → IsMatched S (monitor_look n w)
  unfolding monitor_look
  monitor_look-IsMatched n w v =
      put-IsMatched S R a w v (monitor_look n w) (ground arith) (ground arith) (ground arith)
        (ground arith)

  monitor_attempt-IsMatched :
      (n k : ℕ) (b : Bool) (w : World F) → IsMatched S w → IsMatched S (monitor_attempt n k b w)
  unfolding monitor_attempt
  monitor_attempt-IsMatched n k true w v =
      put-IsMatched S R a w v (monitor_attempt n k true w) refl refl refl refl
  monitor_attempt-IsMatched n k false w v =
      put-IsMatched S R a w v (monitor_attempt n k false w) refl refl refl refl

  end_connect-IsMatched :
      (r : Result (Unit {0})) (w : World F) → IsMatched S w → IsMatched S (end_connect r w).1
  unfolding end_connect spawn_ws_tasks
  end_connect-IsMatched (ok u) w v = put-IsMatched S R a w v (spawn_ws_tasks w) refl refl refl refl
  end_connect-IsMatched (err e) w v = v

  Step-IsMatched : (w w' : World F) → Step S R a w w' → IsMatched S w → IsMatched S w'
  Step-IsMatched w _ (call_starts request) v = begin_call-IsMatched S R a w v request
  Step-IsMatched w _ (call_polled call b) v = poll_call-IsMatched S R a w v call b
  Step-IsMatched w _ (message_read n m h) v = read-IsMatched S R a w v n m
  Step-IsMatched w _ (writer_ends n) v = put-IsMatched S R a w v _ refl refl refl refl
  Step-IsMatched w _ (monitor_looks n h) v = monitor_look-IsMatched n w v
  Step-IsMatched w _ (monitor_tries n k b h) v = monitor_attempt-IsMatched n k b w v
  Step-IsMatched w _ disconnects v = disconnect-IsMatched w v
  Step-IsMatched w _ (listener_ends tx) v = put-IsMatched S R a w v _ refl refl refl refl

  AnyStep-IsMatched : (w w' : World F) → AnyStep S R a w w' → IsMatched S w → IsMatched S w'
  unfolding begin_connect
  AnyStep-IsMatched w w' (step s) v = Step-IsMatched w w' s v
  AnyStep-IsMatched w _ (connect_starts tx) v = put-IsMatched S R a w v _ refl refl refl refl
  AnyStep-IsMatched w _ (connect_ends r) v = end_connect-IsMatched r w v

  Run-IsMatched : (w w' : World F) → Run S R a w w' → IsMatched S w → IsMatched S w'
  Run-IsMatched w _ done v = v
  Run-IsMatched w w' (next {w' = u} run s) v = AnyStep-IsMatched u w' s (Run-IsMatched w u run v)

  -- A call that starts has the number of its turn, and its echo.
  started :
      (request : ApiRequest F) (w : World F) (call : Waiting)
      → (begin_call R a request w).0 ≡ ok call
      → call ≡ call_of w request
  started request w =
      begin_call-cases R a request w
        (λ r. (call : Waiting) → r.0 ≡ ok call → call ≡ call_of w request) (λ e other call h. cc)
        (λ call h. cc) (λ call h. cc) (λ log call h. cc)

  polled :
      (call : Waiting) (b : Bool) (w : World F) (response : ApiResponse F)
      → (poll_call a call b w).0 ≡ some (ok response)
      → HashMap.get w.replies call.id ≡ some response
  polled call b w =
      poll_call-cases a call b w
        (λ r.
          (response : ApiResponse F)
          → r.0 ≡ some (ok response)
          → HashMap.get w.replies call.id ≡ some response)
        (λ answer g response h. cc) (λ e response h. cc) (λ e h response g. cc) (λ response h. cc)

  -- The answer that a call takes, wherever in a run of a new adapter, has the echo of the call,
  -- which is the echo of no other call of the 2^64 before it and behind it.
  pub answer_lem :
      (listening : ℕ → Bool) (w w' : World F) (request : ApiRequest F) (call : Waiting)
      (expired : Bool) (response : ApiResponse F)
      → Run S R a (fresh listening) w
      → (begin_call R a request w).0 ≡ ok call
      → Run S R a (begin_call R a request w).1 w'
      → (poll_call a call expired w').0 ≡ some (ok response)
      → (echo_text S.json response.echo ≡ some call.echo)
        × (call.echo ≡ echo_of call.id)
        × ((n : ℕ)
            → n ≢ call.id
            → n < call.id + 2 ^ 64
            → call.id < n + 2 ^ 64
            → call.echo ≢ echo_of n)
  unfolding call_of
  answer_lem listening w w' request call expired response run start run' poll =
      let v = Run-IsMatched (fresh listening) w run (fresh-IsMatched S listening) in
      let v' =
        Run-IsMatched (begin_call R a request w).1 w' run'
          (begin_call-IsMatched S R a w v request) in
      let taken = v'.own_answer call.id response (polled call expired w' response poll) in
      let called = started request w call start in
      let own =
        ap (λ c. c.echo) called
        ∙ call_of-echo_of S R a w v request
        ∙ ap (λ c. echo_of c.id) (sym called) in
      (
        taken ∙ ap some (sym own),
        own,
        λ n d p q e. echo_of-ne call.id n (λ s. d (sym s)) q p (sym own ∙ e),
      )
