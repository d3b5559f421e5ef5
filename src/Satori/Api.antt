-- ===== src/Satori/Api.antt =====
-- crates/ferroq-gateway/src/satori.rs: calls of the Satori API as requests to a backend, and the
-- answers back. The text of a JSON value that is neither a number nor a string is a parameter.
pub mod Reply
use Prim.Native.String.{◌++◌ as str_append}
use ferroq.Prelude.{
  ℕ, ◌/◌, String, Option, none, some, List, [], ◌∷◌, ◌++◌, map, ◌||◌, ◌==◌, eq_String,
  if◌then◌else◌, Bool, nat_eq,
}
use ferroq.Prelude.Int.{ℤ, pos, int_eq}
use ferroq.Prelude.Decimal.Parse.{parse_i64}
use ferroq.Core.External.{External}
use ferroq.Core.Error.{Result, ok, err, internal, ◌>>=◌}
use ferroq.Core.Api.{ApiRequest, ApiResponse}
use ferroq.Core.Json.{JsonValue, ◌and_then◌, ◌unwrap_or◌, map_or_none, str_at, any_text}
use ferroq.Core.Json.Build.{JsonBuild}
use ferroq.Core.Json.Values.{optional, segment_value}
use ferroq.Satori.Elements.{parse_satori_elements}

module _ {V : Type 0} {J : JsonValue V} (B : JsonBuild J) where
  -- `body.get(from).and_then(as_str)`, parsed, and inserted as a number under `to`.
  unfoldable pub id_param : V → String → String → List (String × V)
  unfolding parse_i64
  id_param body from to =
      optional to (map_or_none B.integer (str_at J body from and_then parse_i64)) []

  abbrev group_param : V → List (String × V)
  unfolding id_param
  group_param body = id_param body "guild_id" "group_id"

  abbrev member_params : V → List (String × V)
  unfolding group_param id_param
  member_params body = group_param body ++ id_param body "user_id" "user_id"

  unfoldable pub message_create : V → String × V
  unfolding parse_satori_elements segment_value parse_i64
  message_create body =
      let content = str_at J body "content" unwrap_or "" in
      let msg : V = B.array (map (segment_value B) (parse_satori_elements content)) in
      elim (parse_i64 (str_at J body "channel_id" unwrap_or "")) [
        | some id ↦
            ("send_group_msg", B.object (("group_id", B.integer id) ∷ ("message", msg) ∷ []))
        | none ↦ ("send_msg", B.object (("message", msg) ∷ []))
      ]

  -- Milliseconds to seconds.
  unfoldable pub mute_params : V → List (String × V)
  unfolding member_params
  mute_params body =
      let seconds = J.get body "duration" and_then J.as_u64 in
      member_params body
      ++ optional "duration" (map_or_none (λ (d : ℕ). B.unsigned (d / 1000)) seconds) []

  unfoldable pub translate_satori_api : String → V → Result (String × V)
  unfolding message_create id_param member_params mute_params group_param
  translate_satori_api resource_method body =
      if resource_method == "message.create"
      then ok (message_create body)
      else if resource_method == "message.get"
      then ok ("get_msg", B.object (id_param body "message_id" "message_id"))
      else if resource_method == "message.delete"
      then ok ("delete_msg", B.object (id_param body "message_id" "message_id"))
      else if resource_method == "channel.get"
      then ok ("get_group_info", B.object (id_param body "channel_id" "group_id"))
      else if resource_method == "channel.list"
      then ok ("get_group_list", B.object [])
      else if resource_method == "guild.get"
      then ok ("get_group_info", B.object (group_param body))
      else if resource_method == "guild.list"
      then ok ("get_group_list", B.object [])
      else if resource_method == "guild.member.get"
      then ok ("get_group_member_info", B.object (member_params body))
      else if resource_method == "guild.member.list"
      then ok ("get_group_member_list", B.object (group_param body))
      else if resource_method == "guild.member.kick"
      then ok ("set_group_kick", B.object (member_params body))
      else if resource_method == "guild.member.mute"
      then ok ("set_group_ban", B.object (mute_params body))
      else if resource_method == "user.get"
      then ok ("get_stranger_info", B.object (id_param body "user_id" "user_id"))
      else if resource_method == "friend.list"
      then ok ("get_friend_list", B.object [])
      else if resource_method == "login.get"
      then ok ("get_login_info", B.object [])
      else err (internal (str_append "unsupported Satori API: " resource_method))

-- `echo` is `None`.
unfoldable pub parse_satori_api :
    {F : External} {J : JsonValue F.Value}
    → JsonBuild J
    → String
    → F.Value
    → Option ℤ
    → Result (ApiRequest F)
unfolding translate_satori_api
parse_satori_api B resource_method body self_id =
    elim (translate_satori_api B resource_method body) [
      | err e ↦ err e
      | ok (action, params) ↦
          ok (record { action = action; params = params; echo = none; self_id = self_id })
    ]

-- `if a.is_empty() { b } else { a }`
abbrev or_text : String → String → String
or_text a b = if a == "" then b else a

module _ {V : Type 0} {J : JsonValue V} (B : JsonBuild J) (to_text : V → String) where
  abbrev pub id_of : V → String → String
  id_of v key = map_or_none (any_text J to_text) (J.get v key) unwrap_or ""

  abbrev pub str_of : V → String → String
  str_of v key = str_at J v key unwrap_or ""

  abbrev id_and_name : String → String → List (String × V)
  id_and_name id name = ("id", B.text id) ∷ ("name", B.text name) ∷ []

  unfoldable pub login_response : V → V
  login_response v = B.object (
      ("sn", B.unsigned 0)
      ∷ ("platform", B.text "qq")
      ∷ ("user", B.object (id_and_name (id_of v "user_id") (str_of v "nickname")))
      ∷ ("status", B.unsigned 1)
      ∷ [])

  unfoldable pub channel_response : V → V
  channel_response v = B.object (
      ("id", B.text (id_of v "group_id"))
      ∷ ("type", B.unsigned 0)
      ∷ ("name", B.text (str_of v "group_name"))
      ∷ [])

  unfoldable pub guild_response : V → V
  guild_response v = B.object (id_and_name (id_of v "group_id") (str_of v "group_name"))

  unfoldable pub member_response : V → V
  member_response v =
      let nickname = str_of v "nickname" in
      B.object (
        ("user", B.object (id_and_name (id_of v "user_id") nickname))
        ∷ ("nick", B.text (or_text (str_of v "card") nickname))
        ∷ [])

  unfoldable pub friend_response : V → V
  friend_response v =
      let nickname = str_of v "nickname" in
      B.object (
        id_and_name (id_of v "user_id") nickname
        ++ ("nick", B.text (or_text (str_of v "remark") nickname)) ∷ [])

  -- An array of items, or an empty one if the answer is no array.
  unfoldable pub list_response : (V → V) → V → V
  list_response f v = B.object (("data", B.array (map f (J.as_array v unwrap_or []))) ∷ [])

  unfoldable pub translate_data : String → V → V
  unfolding login_response channel_response guild_response member_response friend_response
      list_response
  translate_data resource_method v =
      if resource_method == "message.create"
      then B.array
          (B.object (("id", B.text (id_of v "message_id")) ∷ ("content", B.text "") ∷ []) ∷ [])
      else if resource_method == "login.get"
      then login_response v
      else if resource_method == "user.get"
      then B.object (id_and_name (id_of v "user_id") (str_of v "nickname"))
      else if resource_method == "channel.get"
      then channel_response v
      else if resource_method == "guild.get"
      then guild_response v
      else if resource_method == "channel.list"
      then list_response channel_response v
      else if resource_method == "guild.list"
      then list_response guild_response v
      else if resource_method == "guild.member.get"
      then member_response v
      else if resource_method == "guild.member.list"
      then list_response member_response v
      else if resource_method == "friend.list"
      then list_response friend_response v
      else v

-- An answer with a code other than 0 is passed on as it is.
unfoldable pub translate_response :
    {F : External} {J : JsonValue F.Value}
    → JsonBuild J
    → (F.Value → String)
    → String
    → ApiResponse F
    → F.Value
unfolding translate_data
translate_response B to_text resource_method resp =
    if int_eq resp.retcode (pos 0)
    then translate_data B to_text resource_method resp.payload
    else resp.payload
