-- ===== src/Satori/Escape/Inverse.antt =====
-- crates/ferroq-gateway/src/satori.rs: what was escaped comes back. Between two replacements a text
-- is made of pieces, one for each character of the text at the start.
use Prim.Native.Char.{Char, code}
use text.Mathlib.TextEquality.{Char-path}
use ferroq.Prelude.{
  ◌≡◌, refl, sym, ap, ◌∙◌, String, true, false, nat_eq, nat_eq_iff, if◌then◌else◌, inl, inr,
  Bool-cases,
}
use ferroq.Prelude.Str.{push, replace, replace_from, starts_with}
use ferroq.Satori.Escape.{escape_satori_text, unescape_satori_text, escape_attr, unescape_attr}

-- The piece for a character, given those for `&`, `"`, `<` and `>`.
abbrev pub piece : String → String → String → String → Char → String
piece a q l g c =
    if nat_eq (code c) b'&'
    then a
    else if nat_eq (code c) b'"'
    then q
    else if nat_eq (code c) b'<'
    then l
    else if nat_eq (code c) b'>'
    then g
    else String.◌∷◌ c String.[]

abbrev pub pieces : String → String → String → String → String → String
pieces a q l g String.[] = ""
pieces a q l g (String.◌∷◌ c s) = push (piece a q l g c) (pieces a q l g s)

-- A replacement that turns these pieces into those.
record Turns (p by a q l g a' q' l' g' : String) : Type 0 where
  amp : (s : String) → replace_from p by 0 (push a s) ≡ push a' (replace_from p by 0 s)
  quote : (s : String) → replace_from p by 0 (push q s) ≡ push q' (replace_from p by 0 s)
  lt : (s : String) → replace_from p by 0 (push l s) ≡ push l' (replace_from p by 0 s)
  gt : (s : String) → replace_from p by 0 (push g s) ≡ push g' (replace_from p by 0 s)
  other :
      (c : Char) (s : String)
      → nat_eq (code c) b'&' ≡ false
      → nat_eq (code c) b'"' ≡ false
      → nat_eq (code c) b'<' ≡ false
      → nat_eq (code c) b'>' ≡ false
      → replace_from p by 0 (String.◌∷◌ c s) ≡ String.◌∷◌ c (replace_from p by 0 s)

text_escape_first : Turns "&" "&amp;" "&" "\"" "<" ">" "&amp;" "\"" "<" ">"
unfolding replace_from starts_with
text_escape_first = record {
  amp = λ s. refl;
  quote = λ s. refl;
  lt = λ s. refl;
  gt = λ s. refl;
  other = λ c s na nq nl ng. rw (na, replace_from, starts_with) refl;
}

text_escape_second : Turns "<" "&lt;" "&amp;" "\"" "<" ">" "&amp;" "\"" "&lt;" ">"
unfolding replace_from starts_with
text_escape_second = record {
  amp = λ s. refl;
  quote = λ s. refl;
  lt = λ s. refl;
  gt = λ s. refl;
  other = λ c s na nq nl ng. rw (nl, replace_from, starts_with) refl;
}

text_escape_third : Turns ">" "&gt;" "&amp;" "\"" "&lt;" ">" "&amp;" "\"" "&lt;" "&gt;"
unfolding replace_from starts_with
text_escape_third = record {
  amp = λ s. refl;
  quote = λ s. refl;
  lt = λ s. refl;
  gt = λ s. refl;
  other = λ c s na nq nl ng. rw (ng, replace_from, starts_with) refl;
}

text_unescape_first : Turns "&lt;" "<" "&amp;" "\"" "&lt;" "&gt;" "&amp;" "\"" "<" "&gt;"
unfolding replace_from starts_with
text_unescape_first = record {
  amp = λ s. refl;
  quote = λ s. refl;
  lt = λ s. refl;
  gt = λ s. refl;
  other = λ c s na nq nl ng. rw (na, replace_from, starts_with) refl;
}

text_unescape_second : Turns "&gt;" ">" "&amp;" "\"" "<" "&gt;" "&amp;" "\"" "<" ">"
unfolding replace_from starts_with
text_unescape_second = record {
  amp = λ s. refl;
  quote = λ s. refl;
  lt = λ s. refl;
  gt = λ s. refl;
  other = λ c s na nq nl ng. rw (na, replace_from, starts_with) refl;
}

text_unescape_third : Turns "&quot;" "\"" "&amp;" "\"" "<" ">" "&amp;" "\"" "<" ">"
unfolding replace_from starts_with
text_unescape_third = record {
  amp = λ s. refl;
  quote = λ s. refl;
  lt = λ s. refl;
  gt = λ s. refl;
  other = λ c s na nq nl ng. rw (na, replace_from, starts_with) refl;
}

text_unescape_fourth : Turns "&#39;" "'" "&amp;" "\"" "<" ">" "&amp;" "\"" "<" ">"
unfolding replace_from starts_with
text_unescape_fourth = record {
  amp = λ s. refl;
  quote = λ s. refl;
  lt = λ s. refl;
  gt = λ s. refl;
  other = λ c s na nq nl ng. rw (na, replace_from, starts_with) refl;
}

text_unescape_fifth : Turns "&amp;" "&" "&amp;" "\"" "<" ">" "&" "\"" "<" ">"
unfolding replace_from starts_with
text_unescape_fifth = record {
  amp = λ s. refl;
  quote = λ s. refl;
  lt = λ s. refl;
  gt = λ s. refl;
  other = λ c s na nq nl ng. rw (na, replace_from, starts_with) refl;
}

attr_escape_first : Turns "&" "&amp;" "&" "\"" "<" ">" "&amp;" "\"" "<" ">"
unfolding replace_from starts_with
attr_escape_first = record {
  amp = λ s. refl;
  quote = λ s. refl;
  lt = λ s. refl;
  gt = λ s. refl;
  other = λ c s na nq nl ng. rw (na, replace_from, starts_with) refl;
}

attr_escape_second : Turns "\"" "&quot;" "&amp;" "\"" "<" ">" "&amp;" "&quot;" "<" ">"
unfolding replace_from starts_with
attr_escape_second = record {
  amp = λ s. refl;
  quote = λ s. refl;
  lt = λ s. refl;
  gt = λ s. refl;
  other = λ c s na nq nl ng. rw (nq, replace_from, starts_with) refl;
}

attr_escape_third : Turns "<" "&lt;" "&amp;" "&quot;" "<" ">" "&amp;" "&quot;" "&lt;" ">"
unfolding replace_from starts_with
attr_escape_third = record {
  amp = λ s. refl;
  quote = λ s. refl;
  lt = λ s. refl;
  gt = λ s. refl;
  other = λ c s na nq nl ng. rw (nl, replace_from, starts_with) refl;
}

attr_escape_fourth : Turns ">" "&gt;" "&amp;" "&quot;" "&lt;" ">" "&amp;" "&quot;" "&lt;" "&gt;"
unfolding replace_from starts_with
attr_escape_fourth = record {
  amp = λ s. refl;
  quote = λ s. refl;
  lt = λ s. refl;
  gt = λ s. refl;
  other = λ c s na nq nl ng. rw (ng, replace_from, starts_with) refl;
}

attr_unescape_first : Turns "&lt;" "<" "&amp;" "&quot;" "&lt;" "&gt;" "&amp;" "&quot;" "<" "&gt;"
unfolding replace_from starts_with
attr_unescape_first = record {
  amp = λ s. refl;
  quote = λ s. refl;
  lt = λ s. refl;
  gt = λ s. refl;
  other = λ c s na nq nl ng. rw (na, replace_from, starts_with) refl;
}

attr_unescape_second : Turns "&gt;" ">" "&amp;" "&quot;" "<" "&gt;" "&amp;" "&quot;" "<" ">"
unfolding replace_from starts_with
attr_unescape_second = record {
  amp = λ s. refl;
  quote = λ s. refl;
  lt = λ s. refl;
  gt = λ s. refl;
  other = λ c s na nq nl ng. rw (na, replace_from, starts_with) refl;
}

attr_unescape_third : Turns "&quot;" "\"" "&amp;" "&quot;" "<" ">" "&amp;" "\"" "<" ">"
unfolding replace_from starts_with
attr_unescape_third = record {
  amp = λ s. refl;
  quote = λ s. refl;
  lt = λ s. refl;
  gt = λ s. refl;
  other = λ c s na nq nl ng. rw (na, replace_from, starts_with) refl;
}

attr_unescape_fourth : Turns "&#39;" "'" "&amp;" "\"" "<" ">" "&amp;" "\"" "<" ">"
unfolding replace_from starts_with
attr_unescape_fourth = record {
  amp = λ s. refl;
  quote = λ s. refl;
  lt = λ s. refl;
  gt = λ s. refl;
  other = λ c s na nq nl ng. rw (na, replace_from, starts_with) refl;
}

attr_unescape_fifth : Turns "&amp;" "&" "&amp;" "\"" "<" ">" "&" "\"" "<" ">"
unfolding replace_from starts_with
attr_unescape_fifth = record {
  amp = λ s. refl;
  quote = λ s. refl;
  lt = λ s. refl;
  gt = λ s. refl;
  other = λ c s na nq nl ng. rw (na, replace_from, starts_with) refl;
}

piece_turned :
    (p by a q l g a' q' l' g' : String)
    → Turns p by a q l g a' q' l' g'
    → (c : Char) (s : String)
    → replace_from p by 0 (push (piece a q l g c) s)
      ≡ push (piece a' q' l' g' c) (replace_from p by 0 s)
piece_turned p by a q l g a' q' l' g' t c s = elim (Bool-cases (nat_eq (code c) b'&')) [
  | inl ya ↦ rw (ya) (t.amp s)
  | inr na ↦ elim (Bool-cases (nat_eq (code c) b'"')) [
    | inl yq ↦ rw (na, yq) (t.quote s)
    | inr nq ↦ elim (Bool-cases (nat_eq (code c) b'<')) [
      | inl yl ↦ rw (na, nq, yl) (t.lt s)
      | inr nl ↦ elim (Bool-cases (nat_eq (code c) b'>')) [
        | inl yg ↦ rw (na, nq, nl, yg) (t.gt s)
        | inr ng ↦ rw (na, nq, nl, ng) (t.other c s na nq nl ng)
      ]
    ]
  ]
]

turned :
    (p by a q l g a' q' l' g' : String)
    → Turns p by a q l g a' q' l' g'
    → (s : String) → replace_from p by 0 (pieces a q l g s) ≡ pieces a' q' l' g' s
unfolding replace_from
turned p by a q l g a' q' l' g' t String.[] = refl
turned p by a q l g a' q' l' g' t (String.◌∷◌ c s) =
    piece_turned p by a q l g a' q' l' g' t c (pieces a q l g s)
    ∙ ap (push (piece a' q' l' g' c)) (turned p by a q l g a' q' l' g' t s)

is_char :
    (c d : Char) (s : String) → nat_eq (code c) (code d) ≡ true → String.◌∷◌ d s ≡ String.◌∷◌ c s
is_char c d s e =
    ap (λ x. String.◌∷◌ x s) (Char-path d c (sym ((nat_eq_iff (code c) (code d)).0 e)))

itself_piece : (c : Char) (s : String) → push (piece "&" "\"" "<" ">" c) s ≡ String.◌∷◌ c s
itself_piece c s = elim (Bool-cases (nat_eq (code c) b'&')) [
  | inl ya ↦ rw (ya) (is_char c "&" s ya)
  | inr na ↦ elim (Bool-cases (nat_eq (code c) b'"')) [
    | inl yq ↦ rw (na, yq) (is_char c "\"" s yq)
    | inr nq ↦ elim (Bool-cases (nat_eq (code c) b'<')) [
      | inl yl ↦ rw (na, nq, yl) (is_char c "<" s yl)
      | inr nl ↦ elim (Bool-cases (nat_eq (code c) b'>')) [
        | inl yg ↦ rw (na, nq, nl, yg) (is_char c ">" s yg)
        | inr ng ↦ rw (na, nq, nl, ng) refl
      ]
    ]
  ]
]

pub itself : (s : String) → pieces "&" "\"" "<" ">" s ≡ s
itself String.[] = refl
itself (String.◌∷◌ c s) = itself_piece c (pieces "&" "\"" "<" ">" s) ∙ ap (String.◌∷◌ c) (itself s)

pub escape_satori_text-pieces :
    (s : String)
    → escape_satori_text (pieces "&" "\"" "<" ">" s) ≡ pieces "&amp;" "\"" "&lt;" "&gt;" s
unfolding escape_satori_text replace
escape_satori_text-pieces s = simp (
  turned "&" "&amp;" "&" "\"" "<" ">" "&amp;" "\"" "<" ">" text_escape_first s,
  turned "<" "&lt;" "&amp;" "\"" "<" ">" "&amp;" "\"" "&lt;" ">" text_escape_second s,
  turned ">" "&gt;" "&amp;" "\"" "&lt;" ">" "&amp;" "\"" "&lt;" "&gt;" text_escape_third s,
)

unescape_satori_text-pieces :
    (s : String)
    → unescape_satori_text (pieces "&amp;" "\"" "&lt;" "&gt;" s) ≡ pieces "&" "\"" "<" ">" s
unfolding unescape_satori_text replace
unescape_satori_text-pieces s = simp (
  turned "&lt;" "<" "&amp;" "\"" "&lt;" "&gt;" "&amp;" "\"" "<" "&gt;" text_unescape_first s,
  turned "&gt;" ">" "&amp;" "\"" "<" "&gt;" "&amp;" "\"" "<" ">" text_unescape_second s,
  turned "&quot;" "\"" "&amp;" "\"" "<" ">" "&amp;" "\"" "<" ">" text_unescape_third s,
  turned "&#39;" "'" "&amp;" "\"" "<" ">" "&amp;" "\"" "<" ">" text_unescape_fourth s,
  turned "&amp;" "&" "&amp;" "\"" "<" ">" "&" "\"" "<" ">" text_unescape_fifth s,
)

escape_attr-pieces :
    (s : String) → escape_attr (pieces "&" "\"" "<" ">" s) ≡ pieces "&amp;" "&quot;" "&lt;" "&gt;" s
unfolding escape_attr replace
escape_attr-pieces s = simp (
  turned "&" "&amp;" "&" "\"" "<" ">" "&amp;" "\"" "<" ">" attr_escape_first s,
  turned "\"" "&quot;" "&amp;" "\"" "<" ">" "&amp;" "&quot;" "<" ">" attr_escape_second s,
  turned "<" "&lt;" "&amp;" "&quot;" "<" ">" "&amp;" "&quot;" "&lt;" ">" attr_escape_third s,
  turned ">" "&gt;" "&amp;" "&quot;" "&lt;" ">" "&amp;" "&quot;" "&lt;" "&gt;" attr_escape_fourth s,
)

unescape_attr-pieces :
    (s : String)
    → unescape_attr (pieces "&amp;" "&quot;" "&lt;" "&gt;" s) ≡ pieces "&" "\"" "<" ">" s
unfolding unescape_attr replace
unescape_attr-pieces s = simp (
  turned "&lt;" "<" "&amp;" "&quot;" "&lt;" "&gt;" "&amp;" "&quot;" "<" "&gt;" attr_unescape_first
      s,
  turned "&gt;" ">" "&amp;" "&quot;" "<" "&gt;" "&amp;" "&quot;" "<" ">" attr_unescape_second s,
  turned "&quot;" "\"" "&amp;" "&quot;" "<" ">" "&amp;" "\"" "<" ">" attr_unescape_third s,
  turned "&#39;" "'" "&amp;" "\"" "<" ">" "&amp;" "\"" "<" ">" attr_unescape_fourth s,
  turned "&amp;" "&" "&amp;" "\"" "<" ">" "&" "\"" "<" ">" attr_unescape_fifth s,
)

-- A text that was escaped comes back as it was, and so does the value of an attribute.
pub unescape-escape :
    (s : String)
    → (unescape_satori_text (escape_satori_text s) ≡ s) × (unescape_attr (escape_attr s) ≡ s)
unescape-escape s = (
  ap (λ t. unescape_satori_text (escape_satori_text t)) (sym (itself s))
      ∙ ap unescape_satori_text (escape_satori_text-pieces s)
      ∙ unescape_satori_text-pieces s
      ∙ itself s,
  ap (λ t. unescape_attr (escape_attr t)) (sym (itself s))
      ∙ ap unescape_attr (escape_attr-pieces s)
      ∙ unescape_attr-pieces s
      ∙ itself s,
)
