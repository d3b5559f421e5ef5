-- ===== src/Server/Satori/Runs.antt =====
-- crates/ferroq-gateway/src/server/satori.rs: the runs of a connection, and what is to hold in them.
use ferroq.Prelude.{
  ℕ, ◌+◌, ◌≤◌, ◌<◌, ◌^◌, String, Bool, true, false, some, List, [], ◌∷◌, ◌++◌, ◌≡◌, ◌≢◌, ◌⊎◌,
  length, ◌||◌,
}
use ferroq.Core.External.{External}
use ferroq.Core.Event.{Event}
use ferroq.Core.Json.{JsonValue}
use ferroq.Middleware.Text.{Text}
use ferroq.Middleware.Auth.{access_token}
use ferroq.Server.Satori.{
  SatoriState, Session, Signal, ready_signal, identifying, serving, closed, open_session,
  end_session, take_identify, take_signal, push_signal, write_signal, identifies,
}
use ferroq.Server.Satori.Numbers.{Rises}

module _ {F : External} where
  abbrev pub log : Session F → List (Signal F)
  log c = c.wire ++ c.queue

  -- Nothing went out, or READY did, with signals behind it only if the client was identified.
  abbrev pub Sent : Bool → List (Signal F) → ℕ → Type 0
  Sent known all counter =
      (all ≡ [])
      ⊎ ((rest : List (Signal F)) × (all ≡ ready_signal ∷ rest)
          × Rises 0 rest counter
          × ((rest ≡ []) ⊎ (known ≡ true)))

module _ {F : External} {W : Type 0} (J : JsonValue F.Value) (as_bytes : String → Text) where
  -- A step, and whether it is the taking of an IDENTIFY with the token that is asked for. In
  -- between other connections take numbers and a reload changes the token: `elsewhere`.
  pub data Step : Session F × SatoriState F W → Bool → Session F × SatoriState F W → Type 0 where
    identify_step :
        {c : Session F} {state : SatoriState F W} (v : F.Value) (writable : Bool)
        → c.stage ≡ identifying
        → Step
            (c, state)
            (identifies J as_bytes (access_token state.shared_config) v)
            (take_identify J as_bytes v writable (c, state))
    signal_step :
        {c c' : Session F} {state : SatoriState F W} (v : F.Value)
        → c.stage ≡ serving
        → take_signal J v c ≡ some c'
        → Step (c, state) false (c', state)
    push_step :
        {c : Session F} {state : SatoriState F W} (e : Event F)
        → c.stage ≡ serving
        → state.sn_counter + 1 < 2 ^ 64
        → Step (c, state) false (push_signal e (c, state))
    write_step :
        {c : Session F} {state : SatoriState F W}
        → c.stage ≡ serving
        → Step (c, state) false (write_signal c, state)
    end_step :
        {c : Session F} {state : SatoriState F W}
        → c.stage ≢ closed
        → Step (c, state) false (end_session (c, state))
    elsewhere :
        {c : Session F} {state state' : SatoriState F W}
        → state.sn_counter ≤ state'.sn_counter
        → Step (c, state) false (c, state')

  -- The runs of a connection that was opened, with whether it was identified.
  pub data Run (capacity : ℕ) : Session F × SatoriState F W → Bool → Type 0 where
    opened : (state : SatoriState F W) → Run capacity (open_session capacity state) false
    then_step :
        {s t : Session F × SatoriState F W} {known now : Bool}
        → Run capacity s known
        → Step s now t
        → Run capacity t (known || now)

-- What is to hold: the queue is within its capacity, nothing goes out before READY, and no event
-- and no PONG to a client that was not identified.
module _ {F : External} {W : Type 0} where
  pub record IsOrderly (capacity : ℕ) (s : Session F × SatoriState F W) (known : Bool)
      : Type 0 where
    pub capacity_kept : (s.0).capacity ≡ capacity
    pub within : length (s.0).queue ≤ capacity
    pub silent : (s.0).stage ≡ identifying → log s.0 ≡ []
    pub known_first : (s.0).stage ≡ serving → known ≡ true
    pub greeted : (s.0).stage ≡ serving → (rest : List (Signal F)) × (log s.0 ≡ ready_signal ∷ rest)
    pub sent : Sent known (log s.0) (s.1).sn_counter
