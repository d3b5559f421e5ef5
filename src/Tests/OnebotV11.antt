-- ===== src/Tests/OnebotV11.antt =====
-- crates/ferroq-gateway/src/onebot_v11.rs at a concrete input: a value is the list of its fields.
use ferroq.Prelude.{
  ◌≡◌, refl, ◌⊎◌, String, Option, none, some, List, [], ◌∷◌, ◌==◌, eq_String, if◌then◌else◌,
}
use ferroq.Prelude.Int.{ℤ, pos}
use ferroq.Core.External.{External}
use ferroq.Core.Error.{ok, err}
use ferroq.Core.Event
use ferroq.Core.Event.{Event}
use ferroq.Core.Message.{at}
use ferroq.Core.Json.{JsonValue, str_at, int_at, ◌unwrap_or◌}
use ferroq.OnebotV11.{parse_single_segment, parse_event, missing_post_type, unknown_post_type}
use ferroq.OnebotV11.Parsing.{PostType, Unknown, TimeOf, parse_event-cases}

abbrev fields : External
fields = record { Value = List (String × String); DateTime = ℤ; Uuid = ℤ }

abbrev lookup : List (String × String) → String → Option (List (String × String))
lookup [] key = none
lookup ((k, v) ∷ rest) key = if k == key then some (("", v) ∷ []) else lookup rest key

abbrev its_text : List (String × String) → Option String
its_text ((_, v) ∷ []) = some v
its_text _ = none

abbrev json : JsonValue (List (String × String))
json = record {
  get = lookup;
  as_i64 = λ v. none;
  as_u64 = λ v. none;
  as_str = its_text;
  as_array = λ v. none;
  number_text = λ v. none;
  null = [];
}

abbrev raw : List (String × String)
raw = ("post_type", "notice") ∷ ("notice_type", "group_increase") ∷ []

mention : parse_single_segment json "at" (("qq", "all") ∷ ("x", "y") ∷ []) ≡ some (at "all")
unfolding parse_single_segment
mention = refl

parse_event-cases_example :
    ((str_at json raw "post_type" ≡ none)
      × (parse_event {F = fields} json (λ t. some t) raw (pos 7) (pos 1) ≡ err missing_post_type))
    ⊎ ((t : String) × (str_at json raw "post_type" ≡ some t)
        × (((parse_event {F = fields} json (λ t. some t) raw (pos 7) (pos 1)
                ≡ err (unknown_post_type t))
              × Unknown t)
            ⊎ ((e : Event fields) × (parse_event {F = fields} json (λ t. some t) raw (pos 7) (pos 1)
                  ≡ ok e)
                × PostType e t
                × (Event.self_id e ≡ (int_at json raw "self_id" unwrap_or pos 0))
                × TimeOf json (λ t. some t) raw (pos 7) (Event.time e))))
parse_event-cases_example = parse_event-cases {F = fields} json (λ t. some t) raw (pos 7) (pos 1)
