-- ===== src/Middleware/Text.antt =====
-- Header and query texts as lists of bytes, with the methods of `str` that middleware.rs calls.
use Prim.Native.Char.{code}
use ferroq.Prelude.{
  ℕ, ◌≡◌, ◌≢◌, refl, ap, ◌↔◌, ◌∙◌, Bool, true, false, ◌&&◌, Option, none, some, List, [], ◌∷◌, ◌++◌,
  String, arith, nat_eq, Eq, if◌then◌else◌, All,
}

abbrev pub Text : Type 0
Text = List ℕ

-- The bytes of an ASCII literal.
abbrev pub bytes : String → Text
bytes String.[] = []
bytes (String.◌∷◌ c s) = code c ∷ bytes s

abbrev pub text_eq : Text → Text → Bool
text_eq [] [] = true
text_eq (a ∷ s) (b ∷ t) = nat_eq a b && text_eq s t
text_eq (a ∷ s) [] = false
text_eq [] (b ∷ t) = false

pub text_eq_iff : (s t : Text) → (text_eq s t ≡ true) ↔ (s ≡ t)
text_eq_iff [] [] = ground arith
text_eq_iff (a ∷ s) (b ∷ t) = ground (arith, text_eq_iff s t)
text_eq_iff (a ∷ s) [] = ground arith
text_eq_iff [] (b ∷ t) = ground arith

instance abbrev pub eq_Text : Eq Text
eq_Text = record { test = text_eq; test_iff = text_eq_iff }

-- `s.strip_prefix(p)`
unfoldable pub strip_prefix : Text → Text → Option Text
strip_prefix [] s = some s
strip_prefix (a ∷ p) [] = none
strip_prefix (a ∷ p) (b ∷ s) = if nat_eq a b then strip_prefix p s else none

-- `s.split_once(c)`
unfoldable pub split_once : ℕ → Text → Option (Text × Text)
split_once c [] = none
split_once c (a ∷ s) =
    if nat_eq a c
    then some ([], s)
    else elim (split_once c s) [ none ↦ none | some (key, val) ↦ some (a ∷ key, val) ]

-- `s.split(c)`: a piece for each separator, and one more.
abbrev push : ℕ → List Text → List Text
push a [] = (a ∷ []) ∷ []
push a (p ∷ ps) = (a ∷ p) ∷ ps

unfoldable pub split : ℕ → Text → List Text
split c [] = [] ∷ []
split c (a ∷ s) = if nat_eq a c then [] ∷ split c s else push a (split c s)

pub strip_prefix_iff : (p s t : Text) → (strip_prefix p s ≡ some t) ↔ (s ≡ p ++ t)
unfolding strip_prefix
strip_prefix_iff [] s t = ground arith
strip_prefix_iff (a ∷ p) [] t = ground arith
strip_prefix_iff (a ∷ p) (b ∷ s) t = ground (arith, strip_prefix_iff p s t)

-- A byte that does not occur.
abbrev pub Without : ℕ → Text → Type 0
Without c = All (λ a. a ≢ c)

pub split_once_of :
    (c : ℕ) (key val : Text) → Without c key → split_once c (key ++ c ∷ val) ≡ some (key, val)
unfolding split_once
split_once_of c [] val w = ground arith
split_once_of c (a ∷ key) val w = ground (arith, split_once_of c key val w.1)

pub split_once-eq :
    (c : ℕ) (s key val : Text) → split_once c s ≡ some (key, val) → s ≡ key ++ c ∷ val
unfolding split_once
split_once-eq c [] key val h = cc
split_once-eq c (a ∷ s) [] val h = ground arith
split_once-eq c (a ∷ s) (b ∷ key) val h = ground (arith, split_once-eq c s key val)

-- The pieces, with the separator between them.
unfoldable pub join : ℕ → List Text → Text
join c [] = []
join c (p ∷ []) = p
join c (p ∷ q ∷ ps) = p ++ c ∷ join c (q ∷ ps)

split_piece : (c : ℕ) (p s : Text) → Without c p → split c (p ++ c ∷ s) ≡ p ∷ split c s
unfolding split
split_piece c [] s w = ground arith
split_piece c (a ∷ p) s w = ground (arith, split_piece c p s w.1)

split_last : (c : ℕ) (p : Text) → Without c p → split c p ≡ p ∷ []
unfolding split
split_last c [] w = refl
split_last c (a ∷ p) w = ground (arith, split_last c p w.1)

-- Pieces that hold no separator are what a split finds in their join.
pub split-join :
    (c : ℕ) (p : Text) (ps : List Text)
    → All (Without c) (p ∷ ps)
    → split c (join c (p ∷ ps)) ≡ p ∷ ps
unfolding join
split-join c p [] w = split_last c p w.0
split-join c p (q ∷ ps) w =
    split_piece c p (join c (q ∷ ps)) w.0 ∙ ap (◌∷◌ p) (split-join c q ps w.1)
