-- ===== src/OnebotV11/Parsing.antt =====
-- crates/ferroq-gateway/src/onebot_v11.rs: which JSON is an event, and what the event keeps of it.
use ferroq.Prelude.{
  ◌≡◌, ◌≢◌, refl, ◌⊎◌, inl, inr, String, Bool, true, false, ◌||◌, Option, none, some, arith, ◌==◌,
  ==_iff, eq_String, Option-cases, Bool-cases,
}
use ferroq.Prelude.Int.{ℤ, pos}
use ferroq.Core.External.{External}
use ferroq.Core.Error.{ok, err}
use ferroq.Core.Event
use ferroq.Core.Event.{Event, message, notice, request, meta}
use ferroq.Core.Json.{JsonValue, str_at, int_at, ◌unwrap_or◌}
use ferroq.OnebotV11.{
  missing_post_type, unknown_post_type, parse_time, parse_message_event, parse_notice_event,
  parse_request_event, parse_meta_event, parse_as, parse_event,
}

-- The values of `post_type` that stand for an event of this kind.
abbrev pub PostType : {F : External} → Event F → String → Type 0
PostType (message e) t = (t ≡ "message") ⊎ (t ≡ "message_sent")
PostType (notice e) t = t ≡ "notice"
PostType (request e) t = t ≡ "request"
PostType (meta e) t = t ≡ "meta_event"

-- The value stands for no event.
abbrev pub Unknown : String → Type 0
Unknown t =
    (t ≢ "message") × (t ≢ "message_sent") × (t ≢ "notice") × (t ≢ "request") × (t ≢ "meta_event")

differs : (t u : String) → (t == u) ≡ false → t ≢ u
differs t u h e = cc ((==_iff t u).1 e, h)

or_false : (a b : Bool) → (a || b) ≡ false → (a ≡ false) × (b ≡ false)
or_false a b h = ground arith

or_true : (a b : Bool) → (a || b) ≡ true → (a ≡ true) ⊎ (b ≡ true)
or_true a b h = ground arith

message_types :
    (t : String)
    → ((t == "message") || (t == "message_sent")) ≡ true
    → (t ≡ "message") ⊎ (t ≡ "message_sent")
message_types t h = elim (or_true (t == "message") (t == "message_sent") h) [
  | inl e ↦ inl ((==_iff t "message").0 e)
  | inr e ↦ inr ((==_iff t "message_sent").0 e)
]

module _ {V T : Type 0} (J : JsonValue V) (timestamp_opt : ℤ → Option T) where
  -- The time that the JSON gives, or else this one.
  abbrev pub TimeOf : V → T → T → Type 0
  TimeOf raw now time =
      ((z : ℤ) × (int_at J raw "time" ≡ some z) × (timestamp_opt z ≡ some time))
      ⊎ ((time ≡ now)
          × ((int_at J raw "time" ≡ none)
              ⊎ ((z : ℤ) × (int_at J raw "time" ≡ some z) × (timestamp_opt z ≡ none))))

  parse_time-TimeOf : (raw : V) (now : T) → TimeOf raw now (parse_time J timestamp_opt raw now)
  unfolding parse_time
  parse_time-TimeOf raw now = elim (Option-cases (int_at J raw "time")) [
    | inl e ↦ inr (rw (e, parse_time) refl, inl e)
    | inr (z, e) ↦ elim (Option-cases (timestamp_opt z)) [
      | inl f ↦ inr (rw (e, f, parse_time) refl, inr (z, e, f))
      | inr (time, f) ↦ inl (z, e, rw (e, f, parse_time) refl)
    ]
  ]

module _ {F : External} (J : JsonValue F.Value) (timestamp_opt : ℤ → Option F.DateTime) where
  parse_as_lem :
      (t : String) (raw : F.Value) (s : ℤ) (time : F.DateTime) (id : F.Uuid)
      (P : F.DateTime → Type 0) (p : P time)
      → ((parse_as {F = F} J timestamp_opt t raw s time id ≡ err (unknown_post_type t)) × Unknown t)
        ⊎ ((e : Event F) × (parse_as {F = F} J timestamp_opt t raw s time id ≡ ok e)
            × PostType e t
            × (Event.self_id e ≡ s)
            × P (Event.time e))
  unfolding parse_as parse_message_event parse_notice_event parse_request_event parse_meta_event
      Event.self_id Event.time
  parse_as_lem t raw s time id P p = elim (Bool-cases ((t == "message") || (t == "message_sent"))) [
    | inl e ↦
        inr
          (parse_message_event J timestamp_opt raw s time id, rw e refl, message_types t e, refl, p)
    | inr e ↦ elim (Bool-cases (t == "notice")) [
      | inl f ↦ inr (
        parse_notice_event J timestamp_opt raw s time id,
        rw (e, f) refl,
        (==_iff t "notice").0 f,
        refl,
        p,
      )
      | inr f ↦ elim (Bool-cases (t == "request")) [
        | inl g ↦ inr (
          parse_request_event J timestamp_opt raw s time id,
          rw (e, f, g) refl,
          (==_iff t "request").0 g,
          refl,
          p,
        )
        | inr g ↦ elim (Bool-cases (t == "meta_event")) [
          | inl h ↦ inr (
            parse_meta_event J timestamp_opt raw s time id,
            rw (e, f, g, h) refl,
            (==_iff t "meta_event").0 h,
            refl,
            p,
          )
          | inr h ↦ inl (
            rw (e, f, g, h) refl,
            (
              differs t "message" (or_false (t == "message") (t == "message_sent") e).0,
              differs t "message_sent" (or_false (t == "message") (t == "message_sent") e).1,
              differs t "notice" f,
              differs t "request" g,
              differs t "meta_event" h,
            ),
          )
        ]
      ]
    ]
  ]

  -- JSON without a text post_type, or with one that stands for no event, is an error that says so;
  -- all other JSON is an event of the kind that post_type names, of the account in self_id, or 0,
  -- and at the time in time, or now if there is none or it is out of range.
  pub parse_event-cases :
      (raw : F.Value) (now : F.DateTime) (id : F.Uuid)
      → ((str_at J raw "post_type" ≡ none)
          × (parse_event {F = F} J timestamp_opt raw now id ≡ err missing_post_type))
        ⊎ ((t : String) × (str_at J raw "post_type" ≡ some t)
            × (((parse_event {F = F} J timestamp_opt raw now id ≡ err (unknown_post_type t))
                  × Unknown t)
                ⊎ ((e : Event F) × (parse_event {F = F} J timestamp_opt raw now id ≡ ok e)
                    × PostType e t
                    × (Event.self_id e ≡ (int_at J raw "self_id" unwrap_or pos 0))
                    × TimeOf J timestamp_opt raw now (Event.time e))))
  unfolding parse_event
  parse_event-cases raw now id = elim (Option-cases (str_at J raw "post_type")) [
    | inl e ↦ inl (e, rw (e, parse_event) refl)
    | inr (t, e) ↦ inr (
      t,
      e,
      rw (e, parse_event)
          (parse_as_lem t raw (int_at J raw "self_id" unwrap_or pos 0)
            (parse_time J timestamp_opt raw now) id (TimeOf J timestamp_opt raw now)
            (parse_time-TimeOf J timestamp_opt raw now)),
    )
  ]
