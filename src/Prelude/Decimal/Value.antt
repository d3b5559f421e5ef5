-- ===== src/Prelude/Decimal/Value.antt =====
-- The digits that `to_string` prints give the number back, so no two numbers are printed alike.
use Prim.Native.Char.{code}
use Prim.Native.Nat.{ℕ, zero, suc, ◌+◌, ◌*◌, ◌-◌, ◌/◌, ◌%◌, ◌<◌}
use Prim.Native.String.{String, ◌++◌}
use mathlib.Core.Path.{◌≡◌, refl, sym, ap, ◌∙◌}
use mathlib.Core.Logic.{inl, inr}
use native.Mathlib.Omega.{arith}
use text.Mathlib.TextLemmas.{nil-append, cons-append}
use ferroq.Prelude.Tests.{ltb, Bool-cases, ltb→lt}
use ferroq.Prelude.Decimal.{digit, print, to_string}

-- The digits of a text, read behind those of `n`.
value_from : ℕ → String → ℕ
value_from n String.[] = n
value_from n (String.◌∷◌ a s) = value_from (n * 10 + (code a - 48)) s

value_from-append : (n : ℕ) (t s : String) → value_from n (t ++ s) ≡ value_from (value_from n t) s
unfolding value_from
value_from-append n String.[] s = ap (value_from n) (nil-append s)
value_from-append n (String.◌∷◌ a t) s =
    ap (value_from n) (cons-append a t s) ∙ value_from-append (n * 10 + (code a - 48)) t s

value_of-digit : (d n : ℕ) → d < 10 → value_from n (digit d) ≡ n * 10 + d
unfolding value_from digit
value_of-digit zero n h = refl
value_of-digit (suc zero) n h = refl
value_of-digit (suc (suc zero)) n h = refl
value_of-digit (suc (suc (suc zero))) n h = refl
value_of-digit (suc (suc (suc (suc zero)))) n h = refl
value_of-digit (suc (suc (suc (suc (suc zero))))) n h = refl
value_of-digit (suc (suc (suc (suc (suc (suc zero)))))) n h = refl
value_of-digit (suc (suc (suc (suc (suc (suc (suc zero))))))) n h = refl
value_of-digit (suc (suc (suc (suc (suc (suc (suc (suc zero)))))))) n h = refl
value_of-digit (suc (suc (suc (suc (suc (suc (suc (suc (suc zero))))))))) n h = refl
value_of-digit (suc (suc (suc (suc (suc (suc (suc (suc (suc (suc d)))))))))) n h =
    absurd (omega arith)

value_from-digit :
    (d n : ℕ) (s : String) → d < 10 → value_from n (digit d ++ s) ≡ value_from (n * 10 + d) s
value_from-digit d n s h =
    value_from-append n (digit d) s ∙ ap (λ m. value_from m s) (value_of-digit d n h)

value_from-print :
    (fuel n : ℕ) (s : String) → n < fuel → value_from 0 (print fuel n s) ≡ value_from n s
unfolding print
value_from-print zero n s h = absurd (omega arith)
value_from-print (suc fuel) n s h = elim (Bool-cases (ltb n 10)) [
  | inl small ↦
      rw (small, print)
        (value_from-digit n 0 s (ltb→lt n 10 small) ∙ ap (λ m. value_from m s) (omega arith))
  | inr large ↦
      rw (large, print)
        (value_from-print fuel (n / 10) (digit (n % 10) ++ s) (ground arith)
          ∙ value_from-digit (n % 10) (n / 10) s (omega arith)
          ∙ ap (λ m. value_from m s) (omega arith))
]

pub to_string_inj : (m n : ℕ) → to_string m ≡ to_string n → m ≡ n
unfolding to_string value_from
to_string_inj m n e =
    sym (value_from-print (suc m) m "" (omega arith))
    ∙ ap (value_from 0) e
    ∙ value_from-print (suc n) n "" (omega arith)
