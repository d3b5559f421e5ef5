-- ===== src/Prelude/Str.antt =====
-- The methods of `str` that the program calls, on texts as sequences of characters.
use Prim.Native.Char.{Char, code}
use Prim.Native.Nat.{ℕ, zero, suc, ◌-◌}
use Prim.Native.String.{String, ◌++◌}
use mathlib.Core.Bool.{Bool, true, false, ◌&&◌, ◌||◌}
use mathlib.Core.List.{List, [], ◌∷◌}
use ferroq.Prelude.Tests.{nat_eq, leb, if◌then◌else◌, ◌==◌, eq_String}

abbrev pub same_char : Char → Char → Bool
same_char a b = nat_eq (code a) (code b)

abbrev pub concat : List String → String
concat [] = ""
concat (s ∷ ss) = s ++ concat ss

-- `s.starts_with(p)`, `s.ends_with(p)`, `s.contains(p)`
unfoldable pub starts_with : String → String → Bool
starts_with s String.[] = true
starts_with String.[] (String.◌∷◌ b p) = false
starts_with (String.◌∷◌ a s) (String.◌∷◌ b p) = same_char a b && starts_with s p

unfoldable pub ends_with : String → String → Bool
ends_with String.[] p = "" == p
ends_with (String.◌∷◌ a s) p = String.◌∷◌ a s == p || ends_with s p

unfoldable pub contains : String → String → Bool
unfolding starts_with
contains String.[] p = starts_with "" p
contains (String.◌∷◌ a s) p = starts_with (String.◌∷◌ a s) p || contains s p

abbrev pub chars : String → ℕ
chars String.[] = 0
chars (String.◌∷◌ a s) = suc (chars s)

-- `push_str`, by its clauses.
abbrev pub push : String → String → String
push String.[] t = t
push (String.◌∷◌ a s) t = String.◌∷◌ a (push s t)

-- `s.replace(p, by)`, for a `p` that is not empty. `skip` characters are left of a `p` replaced.
unfoldable pub replace_from : String → String → ℕ → String → String
unfolding starts_with
replace_from p by skip String.[] = ""
replace_from p by (suc skip) (String.◌∷◌ a s) = replace_from p by skip s
replace_from p by zero (String.◌∷◌ a s) =
    let here = replace_from p by (chars p - 1) s in
    let later = replace_from p by zero s in
    if starts_with (String.◌∷◌ a s) p then push by here else String.◌∷◌ a later

unfoldable pub replace : String → String → String → String
unfolding replace_from
replace s p by = replace_from p by 0 s

-- `s.trim_end_matches(c)`
unfoldable pub trim_end_matches : ℕ → String → String
trim_end_matches c String.[] = ""
trim_end_matches c (String.◌∷◌ a s) =
    let rest = trim_end_matches c s in
    if nat_eq (code a) c && rest == "" then "" else String.◌∷◌ a rest

-- The first `n` characters, with `...` behind them if there are more.
unfoldable pub truncate : ℕ → String → String
truncate n String.[] = ""
truncate zero (String.◌∷◌ a s) = "..."
truncate (suc n) (String.◌∷◌ a s) = String.◌∷◌ a (truncate n s)

-- `char::is_whitespace`, the white space of Unicode.
unfoldable pub is_whitespace : Char → Bool
is_whitespace c =
    let n = code c in
    (leb 9 n && leb n 13)
    || nat_eq n 32
    || nat_eq n 0x85
    || nat_eq n 0xA0
    || nat_eq n 0x1680
    || (leb 0x2000 n && leb n 0x200A)
    || nat_eq n 0x2028
    || nat_eq n 0x2029
    || nat_eq n 0x202F
    || nat_eq n 0x205F
    || nat_eq n 0x3000

-- `s.trim_start()`, `s.trim_end()`, `s.trim()`
abbrev pub trim_start : String → String
unfolding is_whitespace
trim_start String.[] = ""
trim_start (String.◌∷◌ a s) = if is_whitespace a then trim_start s else String.◌∷◌ a s

abbrev pub trim_end : String → String
unfolding is_whitespace
trim_end String.[] = ""
trim_end (String.◌∷◌ a s) =
    let rest = trim_end s in if is_whitespace a && rest == "" then "" else String.◌∷◌ a rest

unfoldable pub trim : String → String
trim s = trim_end (trim_start s)

-- `s.strip_prefix(p).unwrap_or("")`
unfoldable pub strip_prefix : String → String → String
strip_prefix s String.[] = s
strip_prefix String.[] (String.◌∷◌ b p) = ""
strip_prefix (String.◌∷◌ a s) (String.◌∷◌ b p) = if same_char a b then strip_prefix s p else ""
