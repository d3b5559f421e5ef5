-- ===== src/Satori/Escape.antt =====
-- crates/ferroq-gateway/src/satori.rs: the escaping of texts and of attributes, and its inverse.
pub mod Inverse
use ferroq.Prelude.{String}
use ferroq.Prelude.Str.{replace}

unfoldable pub escape_satori_text : String → String
unfolding replace
escape_satori_text s = replace (replace (replace s "&" "&amp;") "<" "&lt;") ">" "&gt;"

unfoldable pub unescape_satori_text : String → String
unfolding replace
unescape_satori_text s =
    replace
      (replace (replace (replace (replace s "&lt;" "<") "&gt;" ">") "&quot;" "\"") "&#39;" "'")
      "&amp;" "&"

unfoldable pub escape_attr : String → String
unfolding replace
escape_attr s =
    replace (replace (replace (replace s "&" "&amp;") "\"" "&quot;") "<" "&lt;") ">" "&gt;"

unfoldable pub unescape_attr : String → String
unfolding unescape_satori_text
unescape_attr s = unescape_satori_text s
