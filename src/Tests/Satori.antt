-- ===== src/Tests/Satori.antt =====
-- crates/ferroq-gateway/src/satori.rs at concrete inputs.
use ferroq.Prelude.{◌≡◌, refl, [], ◌∷◌, map, ◌==◌, eq_String, if◌then◌else◌}
use ferroq.Prelude.Str.{
  replace, replace_from, starts_with, contains, trim, trim_end_matches, strip_prefix, is_whitespace,
}
use ferroq.Prelude.HashMap
use ferroq.Core.Message.{text, at, reply}
use ferroq.Satori.Escape.{escape_satori_text, unescape_satori_text, escape_attr, unescape_attr}
use ferroq.Satori.Escape.Inverse.{unescape-escape}
use ferroq.Satori.Elements.{
  segments_to_satori_elements, segment_to_element, parse_satori_elements, parse_from, take_char,
  at_end, flush, found, parse_satori_tag, parse_attrs,
}
use ferroq.Satori.Elements.Texts.{parse-texts, joined}

shown :
    segments_to_satori_elements (text "a < b & c" ∷ at "42" ∷ [])
    ≡ "a &lt; b &amp; c<at id=\"42\" />"
unfolding segments_to_satori_elements segment_to_element escape_satori_text escape_attr replace
    replace_from starts_with
shown = refl

read_back :
    parse_satori_elements "hi<at id=\"42\" /><quote><message id=\"7\" /></quote>"
    ≡ text "hi" ∷ at "42" ∷ reply "7" ∷ []
unfolding parse_satori_elements parse_from take_char at_end flush found parse_satori_tag parse_attrs
    unescape_satori_text unescape_attr replace replace_from starts_with contains trim
    trim_end_matches strip_prefix is_whitespace HashMap.get HashMap.insert HashMap.remove
    HashMap.contains_key
read_back = refl

unescape-escape_example :
    (unescape_satori_text (escape_satori_text "&lt;\"<>") ≡ "&lt;\"<>")
    × (unescape_attr (escape_attr "&lt;\"<>") ≡ "&lt;\"<>")
unescape-escape_example = unescape-escape "&lt;\"<>"

parse-texts_example :
    parse_satori_elements (segments_to_satori_elements (map text ("<at" ∷ "&" ∷ [])))
    ≡ (if joined ("<at" ∷ "&" ∷ []) == "" then [] else text (joined ("<at" ∷ "&" ∷ [])) ∷ [])
parse-texts_example = parse-texts ("<at" ∷ "&" ∷ [])
