-- ===== src/Satori/Elements/Texts.antt =====
-- crates/ferroq-gateway/src/satori.rs: what a client reads from the elements of a text.
use Prim.Native.Char.{Char, code}
use mathlib.Core.Path.{ap₂, subst}
use ferroq.Prelude.{
  map, ◌≡◌, refl, sym, ap, ◌∙◌, String, false, List, [], ◌∷◌, ◌++◌, ◌==◌, ==_iff, eq_String,
  if◌then◌else◌, Bool-cases, inl, inr, nat_eq,
}
use ferroq.Prelude.Str.{push, replace, replace_from}
use ferroq.Core.Message.{text}
use ferroq.Satori.Escape.{escape_satori_text, unescape_satori_text}
use ferroq.Satori.Escape.Inverse.{unescape-escape, piece, pieces, itself, escape_satori_text-pieces}
use ferroq.Satori.Elements.{
  segment_to_element, segments_to_satori_elements, parse_satori_elements, parse_from, take_char,
  at_end, flush, push_char, in_text,
}

push_assoc : (s t u : String) → push (push s t) u ≡ push s (push t u)
push_assoc String.[] t u = refl
push_assoc (String.◌∷◌ c s) t u = ap (String.◌∷◌ c) (push_assoc s t u)

push_nil : (s : String) → push s "" ≡ s
push_nil String.[] = refl
push_nil (String.◌∷◌ c s) = ap (String.◌∷◌ c) (push_nil s)

take_char-plain :
    (c : Char) (buf : String)
    → nat_eq (code c) b'&' ≡ false
    → nat_eq (code c) b'<' ≡ false
    → take_char (in_text buf) c ≡ ([], in_text (push_char buf c))
unfolding take_char
take_char-plain c buf na nl = rw (nl, na, take_char) refl

-- The parser reads the piece of one character into its buffer.
read_piece :
    (c : Char) (buf s : String)
    → parse_from (in_text buf) (push (piece "&amp;" "\"" "&lt;" "&gt;" c) s)
      ≡ parse_from (in_text (push buf (piece "&amp;" "\"" "&lt;" "&gt;" c))) s
unfolding parse_from take_char
read_piece c buf s = elim (Bool-cases (nat_eq (code c) b'&')) [
  | inl ya ↦ rw (ya) (ap (λ b. parse_from (in_text b) s) (simp push_assoc))
  | inr na ↦ elim (Bool-cases (nat_eq (code c) b'"')) [
    | inl yq ↦ rw (na, yq) refl
    | inr nq ↦ elim (Bool-cases (nat_eq (code c) b'<')) [
      | inl yl ↦ rw (na, nq, yl) (ap (λ b. parse_from (in_text b) s) (simp push_assoc))
      | inr nl ↦ elim (Bool-cases (nat_eq (code c) b'>')) [
        | inl yg ↦ rw (na, nq, nl, yg) (ap (λ b. parse_from (in_text b) s) (simp push_assoc))
        | inr ng ↦
            rw (na, nq, nl, ng) (ap (λ r. r.0 ++ parse_from r.1 s) (take_char-plain c buf na nl))
      ]
    ]
  ]
]

read_pieces :
    (t buf s : String)
    → parse_from (in_text buf) (push (pieces "&amp;" "\"" "&lt;" "&gt;" t) s)
      ≡ parse_from (in_text (push buf (pieces "&amp;" "\"" "&lt;" "&gt;" t))) s
read_pieces String.[] buf s = ap (λ b. parse_from (in_text b) s) (sym (push_nil buf))
read_pieces (String.◌∷◌ c t) buf s =
    let first = piece "&amp;" "\"" "&lt;" "&gt;" c in
    let rest = pieces "&amp;" "\"" "&lt;" "&gt;" t in
    ap (parse_from (in_text buf)) (push_assoc first rest s)
    ∙ read_piece c buf (push rest s)
    ∙ read_pieces t (push buf first) s
    ∙ ap (λ b. parse_from (in_text b) s) (push_assoc buf first rest)

escaped : (t : String) → escape_satori_text t ≡ pieces "&amp;" "\"" "&lt;" "&gt;" t
escaped t = ap escape_satori_text (sym (itself t)) ∙ escape_satori_text-pieces t

-- The buffer holds an escaped text for as long as the elements are those of texts.
read_text :
    (t buf s : String)
    → parse_from (in_text buf) (push (escape_satori_text t) s)
      ≡ parse_from (in_text (push buf (escape_satori_text t))) s
read_text t buf s =
    ap (λ e. parse_from (in_text buf) (push e s)) (escaped t)
    ∙ read_pieces t buf s
    ∙ ap (λ e. parse_from (in_text (push buf e)) s) (sym (escaped t))

abbrev pub joined : List String → String
joined [] = ""
joined (t ∷ ts) = push t (joined ts)

pieces-push :
    (t u : String)
    → pieces "&amp;" "\"" "&lt;" "&gt;" (push t u)
      ≡ push (pieces "&amp;" "\"" "&lt;" "&gt;" t) (pieces "&amp;" "\"" "&lt;" "&gt;" u)
pieces-push String.[] u = refl
pieces-push (String.◌∷◌ c t) u =
    ap (push (piece "&amp;" "\"" "&lt;" "&gt;" c)) (pieces-push t u)
    ∙ sym (
        push_assoc (piece "&amp;" "\"" "&lt;" "&gt;" c) (pieces "&amp;" "\"" "&lt;" "&gt;" t)
          (pieces "&amp;" "\"" "&lt;" "&gt;" u))

escape-push :
    (t u : String)
    → escape_satori_text (push t u) ≡ push (escape_satori_text t) (escape_satori_text u)
escape-push t u =
    escaped (push t u) ∙ pieces-push t u ∙ ap₂ push (sym (escaped t)) (sym (escaped u))

elements-texts :
    (ts : List String) → segments_to_satori_elements (map text ts) ≡ escape_satori_text (joined ts)
unfolding segments_to_satori_elements segment_to_element escape_satori_text replace replace_from
elements-texts [] = refl
elements-texts (t ∷ ts) =
    ap (push (escape_satori_text t)) (elements-texts ts) ∙ sym (escape-push t (joined ts))

unescaped : (t : String) → escape_satori_text t ≡ "" → t ≡ ""
unfolding unescape_satori_text replace replace_from
unescaped t e = sym (unescape-escape t).0 ∙ ap unescape_satori_text e

flush-full : (buf : String) → (buf == "") ≡ false → flush buf ≡ text (unescape_satori_text buf) ∷ []
unfolding flush
flush-full buf z = rw (z, flush) refl

flush-escape : (t : String) → flush (escape_satori_text t) ≡ (if t == "" then [] else text t ∷ [])
unfolding escape_satori_text replace replace_from flush
flush-escape t = elim (Bool-cases (t == "")) [
  | inl y ↦
      subst (λ u. flush (escape_satori_text u) ≡ (if u == "" then [] else text u ∷ []))
        (sym ((==_iff t "").0 y)) refl
  | inr n ↦ elim (Bool-cases (escape_satori_text t == "")) [
    | inl z ↦ cc ((==_iff t "").1 (unescaped t ((==_iff (escape_satori_text t) "").0 z)), n)
    | inr z ↦
        rw (n) (flush-full (escape_satori_text t) z ∙ ap (λ u. text u ∷ []) (unescape-escape t).0)
  ]
]

-- A client that reads the elements of a list of texts gets one text, all of them in a row, or
-- nothing if they are empty, whatever characters are in them.
pub parse-texts :
    (ts : List String)
    → parse_satori_elements (segments_to_satori_elements (map text ts))
      ≡ (if joined ts == "" then [] else text (joined ts) ∷ [])
unfolding parse_satori_elements parse_from at_end
parse-texts ts =
    ap (parse_from (in_text ""))
      (elements-texts ts ∙ sym (push_nil (escape_satori_text (joined ts))))
    ∙ read_text (joined ts) "" ""
    ∙ flush-escape (joined ts)
