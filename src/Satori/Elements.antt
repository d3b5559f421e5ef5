-- ===== src/Satori/Elements.antt =====
-- crates/ferroq-gateway/src/satori.rs: segments as elements, and back. The inner loops of the parser, `read_tag`,
-- `read_entity` and those of `parse_attrs`, are modes in which it takes the next character.
pub mod Texts
use Prim.Native.Char.{Char, code}
use ferroq.Prelude.{
  ℕ, ◌≤◌, String, Bool, true, false, ◌&&◌, ◌||◌, not, Option, none, some, List, [], ◌∷◌, ◌++◌,
  nat_eq, leb, ◌==◌, eq_String, if◌then◌else◌, is_some,
}
use ferroq.Prelude.Str.{
  push, concat, starts_with, strip_prefix, contains, trim, trim_end_matches, is_whitespace,
}
use ferroq.Prelude.HashMap
use ferroq.Prelude.HashMap.{HashMap}
use ferroq.Core.Json.{◌unwrap_or◌}
use ferroq.Core.Message.{
  MessageSegment, text, image, at, face, reply, voice, video, forward, json, xml, poke, unknown,
}
use ferroq.Satori.Escape.{escape_satori_text, unescape_satori_text, escape_attr, unescape_attr}

-- ` <name attr="value" />`, the value escaped.
abbrev element : String → String → String → String
unfolding escape_attr
element start value stop = concat (start ∷ escape_attr value ∷ stop ∷ [])

unfoldable pub segment_to_element : MessageSegment → String
unfolding element escape_satori_text escape_attr
segment_to_element (text t) = escape_satori_text t
segment_to_element (at qq) =
    if qq == "all" then "<at type=\"all\" />" else element "<at id=\"" qq "\" />"
segment_to_element (image file url) = element "<img src=\"" (url unwrap_or file) "\" />"
segment_to_element (face id) = element "<emoji id=\"" id "\" />"
segment_to_element (reply id) = element "<quote><message id=\"" id "\" /></quote>"
segment_to_element (voice file url) = element "<audio src=\"" (url unwrap_or file) "\" />"
segment_to_element (video file url) = element "<video src=\"" (url unwrap_or file) "\" />"
segment_to_element (forward id) = element "<message id=\"" id "\" forward />"
segment_to_element (json t) = escape_satori_text t
segment_to_element (xml t) = escape_satori_text t
segment_to_element (poke poke_type id) =
    concat ("<qq:poke type=\"" ∷ escape_attr poke_type ∷ "\" id=\"" ∷ escape_attr id ∷ "\" />" ∷ [])
segment_to_element unknown = ""

unfoldable pub segments_to_satori_elements : List MessageSegment → String
unfolding segment_to_element
segments_to_satori_elements [] = ""
segments_to_satori_elements (seg ∷ segments) =
    push (segment_to_element seg) (segments_to_satori_elements segments)

-- A buffer grows at its end: `s.push(c)`.
abbrev pub push_char : String → Char → String
push_char s c = push s (String.◌∷◌ c String.[])

abbrev pub is : ℕ → Char → Bool
is n c = nat_eq (code c) n

-- Where the loop of `parse_attrs` stands.
pub data AttrMode : Type 0 where
  seek : AttrMode
  name value : String → AttrMode
  quoted : String → ℕ → String → AttrMode
  unquoted : String → String → AttrMode

abbrev pub ends_name : Char → Bool
unfolding is_whitespace
ends_name c = is_whitespace c || is b'/' c

-- One character, and the end of the text.
abbrev attr_char : AttrMode → Char → HashMap String String → AttrMode × HashMap String String
unfolding unescape_attr
attr_char seek c attrs =
    if ends_name c || is b'=' c then (seek, attrs) else (name (String.◌∷◌ c String.[]), attrs)
attr_char (name n) c attrs =
    if is b'=' c
    then (value n, attrs)
    else if ends_name c
    then (seek, HashMap.insert n "" attrs)
    else (name (push_char n c), attrs)
attr_char (value n) c attrs =
    if is b'"' c || is b'\'' c
    then (quoted n (code c) "", attrs)
    else if ends_name c
    then (seek, HashMap.insert n "" attrs)
    else (unquoted n (String.◌∷◌ c String.[]), attrs)
attr_char (quoted n quote v) c attrs =
    if nat_eq (code c) quote
    then (seek, HashMap.insert n (unescape_attr v) attrs)
    else (quoted n quote (push_char v c), attrs)
attr_char (unquoted n v) c attrs =
    if ends_name c then (seek, HashMap.insert n v attrs) else (unquoted n (push_char v c), attrs)

abbrev attr_end : AttrMode → HashMap String String → HashMap String String
unfolding unescape_attr
attr_end seek attrs = attrs
attr_end (name n) attrs = HashMap.insert n "" attrs
attr_end (value n) attrs = HashMap.insert n "" attrs
attr_end (quoted n quote v) attrs = HashMap.insert n (unescape_attr v) attrs
attr_end (unquoted n v) attrs = HashMap.insert n v attrs

unfoldable attrs_from : AttrMode → HashMap String String → String → HashMap String String
unfolding attr_char attr_end
attrs_from mode attrs String.[] = attr_end mode attrs
attrs_from mode attrs (String.◌∷◌ c s) =
    let (mode', attrs') = attr_char mode c attrs in attrs_from mode' attrs' s

unfoldable pub parse_attrs : String → HashMap String String
unfolding attrs_from
parse_attrs s = attrs_from seek [] (trim s)

-- The element of this name and what one attribute makes of it.
abbrev with_attr : String → String → String → (String → MessageSegment) → Option MessageSegment
unfolding parse_attrs HashMap.get
with_attr tag element_name key make =
    elim (HashMap.get (parse_attrs (strip_prefix tag element_name)) key) [
      | none ↦ none
      | some v ↦ some (make v)
    ]

abbrev parse_at : String → Option MessageSegment
unfolding with_attr HashMap.get parse_attrs
parse_at tag =
    let attrs = parse_attrs (strip_prefix tag "at") in
    let by_id = with_attr tag "at" "id" at in
    elim (HashMap.get attrs "type") [
      | none ↦ by_id
      | some at_type ↦ if at_type == "all" || at_type == "here" then some (at at_type) else by_id
    ]

abbrev parse_message : String → Option MessageSegment
unfolding with_attr HashMap.contains_key parse_attrs
parse_message tag =
    let attrs = parse_attrs (strip_prefix tag "message") in
    if HashMap.contains_key attrs "forward" || contains tag "forward"
    then with_attr tag "message" "id" forward
    else with_attr tag "message" "id" reply

abbrev trimmed_tag : String → String
unfolding trim
trimmed_tag tag = trim (trim_end_matches b'/' (trim tag))

unfoldable pub parse_satori_tag : String → Option MessageSegment
unfolding trimmed_tag parse_at parse_message with_attr
parse_satori_tag raw =
    let tag = trimmed_tag raw in
    if starts_with tag "at"
    then parse_at tag
    else if starts_with tag "img"
    then with_attr tag "img" "src" (λ src. image src (some src))
    else if starts_with tag "audio"
    then with_attr tag "audio" "src" (λ src. voice src (some src))
    else if starts_with tag "video"
    then with_attr tag "video" "src" (λ src. video src (some src))
    else if starts_with tag "emoji"
    then with_attr tag "emoji" "id" face
    else if starts_with tag "message"
    then parse_message tag
    else none

-- Where the loop of `parse_satori_elements` stands: in a text, in a tag, or in an entity, which is
-- kept in the text as it stands.
pub data Mode : Type 0 where
  in_text in_tag in_entity : String → Mode

unfoldable pub flush : String → List MessageSegment
unfolding unescape_satori_text
flush text_buf = if text_buf == "" then [] else text (unescape_satori_text text_buf) ∷ []

unfoldable pub found : String → List MessageSegment
unfolding parse_satori_tag
found tag = elim (parse_satori_tag tag) [ none ↦ [] | some seg ↦ seg ∷ [] ]

-- One character: the segments that it completes, and the next mode.
unfoldable pub take_char : Mode → Char → List MessageSegment × Mode
unfolding flush found
take_char (in_text text_buf) c =
    if is b'<' c
    then (flush text_buf, in_tag "")
    else if is b'&' c
    then ([], in_entity (push_char text_buf c))
    else ([], in_text (push_char text_buf c))
take_char (in_entity text_buf) c =
    ([], if is b';' c then in_text (push_char text_buf c) else in_entity (push_char text_buf c))
take_char (in_tag tag) c =
    if is b'>' c then (found tag, in_text "") else ([], in_tag (push_char tag c))

unfoldable pub at_end : Mode → List MessageSegment
unfolding flush found
at_end (in_text text_buf) = flush text_buf
at_end (in_entity text_buf) = flush text_buf
at_end (in_tag tag) = found tag

unfoldable pub parse_from : Mode → String → List MessageSegment
unfolding take_char at_end
parse_from mode String.[] = at_end mode
parse_from mode (String.◌∷◌ c s) =
    let (segments, mode') = take_char mode c in segments ++ parse_from mode' s

unfoldable pub parse_satori_elements : String → List MessageSegment
unfolding parse_from
parse_satori_elements content = parse_from (in_text "") content
