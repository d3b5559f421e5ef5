-- ===== src/Prelude/Decimal/Parse.antt =====
-- `str::parse::<i64>`: an optional sign, then one or more digits, of a number in range. What
-- `to_string` prints is read back.
use Prim.Native.Char.{Char, code}
use Prim.Native.Nat.{ℕ, zero, suc, ◌+◌, ◌*◌, ◌-◌, ◌/◌, ◌%◌, ◌^◌, ◌<◌}
use Prim.Native.String.{String, ◌++◌}
use mathlib.Core.Path.{◌≡◌, refl, sym, ap, ◌∙◌, subst}
use mathlib.Core.Logic.{inl, inr}
use mathlib.Core.Bool.{Bool, true, ◌&&◌}
use mathlib.Core.Option.{Option, none, some}
use native.Mathlib.Omega.{arith}
use text.Mathlib.TextLemmas.{nil-append, cons-append}
use ferroq.Prelude.Tests.{ltb, leb, nat_eq, Bool-cases, ltb→lt, if◌then◌else◌}
use ferroq.Prelude.Int.{ℤ, pos, negsuc, IsI64}
use ferroq.Prelude.Decimal.{digit, print, to_string, int_text}

abbrev pub is_digit : Char → Bool
is_digit c = leb 48 (code c) && leb (code c) 57

-- The digits of a text behind those of `n`; `none` if one is no digit.
unfoldable pub digits_from : ℕ → String → Option ℕ
digits_from n String.[] = some n
digits_from n (String.◌∷◌ a s) =
    let rest = digits_from (n * 10 + (code a - 48)) s in if is_digit a then rest else none

unfoldable pub parse_digits : String → Option ℕ
unfolding digits_from
parse_digits String.[] = none
parse_digits (String.◌∷◌ a s) = digits_from 0 (String.◌∷◌ a s)

abbrev pub checked_pos : ℕ → Option ℤ
checked_pos n = if ltb n (2 ^ 63) then some (pos n) else none

abbrev pub checked_neg : ℕ → Option ℤ
checked_neg zero = some (pos 0)
checked_neg (suc n) = if ltb n (2 ^ 63) then some (negsuc n) else none

abbrev checked : (ℕ → Option ℤ) → Option ℕ → Option ℤ
checked f none = none
checked f (some n) = f n

unfoldable pub parse_i64 : String → Option ℤ
unfolding parse_digits
parse_i64 String.[] = none
parse_i64 (String.◌∷◌ a s) =
    if nat_eq (code a) b'-'
    then checked checked_neg (parse_digits s)
    else if nat_eq (code a) b'+'
    then checked checked_pos (parse_digits s)
    else checked checked_pos (parse_digits (String.◌∷◌ a s))

digit-cons : (d : ℕ) → d < 10 → (a : Char) × (digit d ≡ String.◌∷◌ a String.[]) × (code a ≡ 48 + d)
unfolding digit
digit-cons zero h = ("0", refl, refl)
digit-cons (suc zero) h = ("1", refl, refl)
digit-cons (suc (suc zero)) h = ("2", refl, refl)
digit-cons (suc (suc (suc zero))) h = ("3", refl, refl)
digit-cons (suc (suc (suc (suc zero)))) h = ("4", refl, refl)
digit-cons (suc (suc (suc (suc (suc zero))))) h = ("5", refl, refl)
digit-cons (suc (suc (suc (suc (suc (suc zero)))))) h = ("6", refl, refl)
digit-cons (suc (suc (suc (suc (suc (suc (suc zero))))))) h = ("7", refl, refl)
digit-cons (suc (suc (suc (suc (suc (suc (suc (suc zero)))))))) h = ("8", refl, refl)
digit-cons (suc (suc (suc (suc (suc (suc (suc (suc (suc zero))))))))) h = ("9", refl, refl)
digit-cons (suc (suc (suc (suc (suc (suc (suc (suc (suc (suc d)))))))))) h = absurd (omega arith)

digit-append :
    (d : ℕ) (s : String) → d < 10 → (a : Char) × (digit d ++ s ≡ String.◌∷◌ a s) × (code a ≡ 48 + d)
digit-append d s h =
    let (a, e, c) = digit-cons d h in
    (a, ap (λ t. t ++ s) e ∙ cons-append a "" s ∙ ap (String.◌∷◌ a) (nil-append s), c)

print-digits :
    (P : String → Type 0)
    → ((a : Char) (s : String) → is_digit a ≡ true → P s → P (String.◌∷◌ a s))
    → (fuel n : ℕ) (s : String) → P s
    → P (print fuel n s)
unfolding print
print-digits P more zero n s p = p
print-digits P more (suc fuel) n s p = elim (Bool-cases (ltb n 10)) [
  | inl small ↦ rw (small, print) (one_more n s (ltb→lt n 10 small) p)
  | inr large ↦
      rw (large, print)
        (print-digits P more fuel (n / 10) (digit (n % 10) ++ s)
          (one_more (n % 10) s (omega arith) p))
]
  where
    one_more : (d : ℕ) (t : String) → d < 10 → P t → P (digit d ++ t)
    one_more d t h q =
        let (a, e, c) = digit-append d t h in subst P (sym e) (more a t (ground (arith, c, h)) q)

-- What holds of the empty text, and of a text behind one more digit, holds of a printed number.
pub to_string-digits :
    (P : String → Type 0)
    → P ""
    → ((a : Char) (s : String) → is_digit a ≡ true → P s → P (String.◌∷◌ a s))
    → (n : ℕ) → P (to_string n)
unfolding to_string
to_string-digits P none_left more n = print-digits P more (suc n) n "" none_left

digits_from-digit :
    (d n : ℕ) (s : String) → d < 10 → digits_from n (digit d ++ s) ≡ digits_from (n * 10 + d) s
unfolding digits_from
digits_from-digit d n s h =
    let (a, e, c) = digit-append d s h in
    ap (digits_from n) e ∙ (ground (arith, c, ap (λ m. digits_from m s) (step a c)))
  where
    step : (a : Char) → code a ≡ 48 + d → n * 10 + (code a - 48) ≡ n * 10 + d
    step a c = omega arith

digits_from-print :
    (fuel n : ℕ) (s : String) → n < fuel → digits_from 0 (print fuel n s) ≡ digits_from n s
unfolding print
digits_from-print zero n s h = absurd (omega arith)
digits_from-print (suc fuel) n s h = elim (Bool-cases (ltb n 10)) [
  | inl small ↦
      rw (small, print)
        (digits_from-digit n 0 s (ltb→lt n 10 small) ∙ ap (λ m. digits_from m s) (omega arith))
  | inr large ↦
      rw (large, print)
        (digits_from-print fuel (n / 10) (digit (n % 10) ++ s) (ground arith)
          ∙ digits_from-digit (n % 10) (n / 10) s (omega arith)
          ∙ ap (λ m. digits_from m s) (omega arith))
]

print-cons :
    (fuel n : ℕ) (s : String)
    → n < fuel
    → (a : Char) × (t : String) × (print fuel n s ≡ String.◌∷◌ a t) × (is_digit a ≡ true)
unfolding print
print-cons zero n s h = absurd (omega arith)
print-cons (suc fuel) n s h = elim (Bool-cases (ltb n 10)) [
  | inl small ↦
      let (a, e, c) = digit-append n s (ltb→lt n 10 small) in
      (a, s, rw (small, print) e, ground (arith, ltb→lt n 10 small))
  | inr large ↦
      let (a, t, e, d) = print-cons fuel (n / 10) (digit (n % 10) ++ s) (ground arith) in
      (a, t, rw (large, print) e, d)
]

-- A printed number is one or more digits, which are read back.
to_string-cons :
    (n : ℕ)
    → (a : Char) × (t : String) × (to_string n ≡ String.◌∷◌ a t)
      × (is_digit a ≡ true)
      × (parse_digits (to_string n) ≡ some n)
unfolding to_string parse_digits digits_from
to_string-cons n =
    let (a, t, e, d) = print-cons (suc n) n "" (omega arith) in
    (
      a,
      t,
      e,
      d,
      ap parse_digits e ∙ ap (digits_from 0) (sym e) ∙ digits_from-print (suc n) n "" (omega arith),
    )

parse_i64-digits :
    (a : Char) (t : String) (n : ℕ)
    → is_digit a ≡ true
    → parse_digits (String.◌∷◌ a t) ≡ some n
    → n < 2 ^ 63
    → parse_i64 (String.◌∷◌ a t) ≡ some (pos n)
unfolding parse_i64
parse_i64-digits a t n d r h = ground arith

parse_i64-minus :
    (s : String) (n : ℕ)
    → parse_digits s ≡ some (suc n)
    → n < 2 ^ 63
    → parse_i64 ("-" ++ s) ≡ some (negsuc n)
unfolding parse_i64
parse_i64-minus s n r h =
    ap parse_i64 (cons-append "-" "" s ∙ ap (String.◌∷◌ "-") (nil-append s))
    ∙ ap (checked checked_neg) r
    ∙ ground arith

-- Every `i64` that is printed is read back.
pub parse_i64-int_text : (z : ℤ) → IsI64 z → parse_i64 (int_text z) ≡ some z
unfolding int_text
parse_i64-int_text (pos n) h =
    let (a, t, e, d, r) = to_string-cons n in
    ap parse_i64 e ∙ parse_i64-digits a t n d (ap parse_digits (sym e) ∙ r) h
parse_i64-int_text (negsuc n) h =
    let (a, t, e, d, r) = to_string-cons (suc n) in parse_i64-minus (to_string (suc n)) n r h
