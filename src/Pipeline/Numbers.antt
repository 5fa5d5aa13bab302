-- ===== src/Pipeline/Numbers.antt =====
-- Python's `str` of a non-negative `int`, which the numbered context blocks print.
use xymphony_voice.Base.{
  ℕ, suc, zero, ◌+◌, ◌*◌, ◌-◌, ◌/◌, ◌%◌, ◌<◌, ◌≡◌, ◌∙◌, ltb, [], ◌∷◌, if◌then◌else◌, arith,
  Bool-cases, inl, inr, ap, ltb→lt, ltb→le,
}
use xymphony_voice.Base.Text.{Text}

-- The digits of `n`, in front of those that are there. The fuel is one more than the number.
unfoldable digits : ℕ → ℕ → Text → Text
digits zero n rest = rest
digits (suc fuel) n rest =
    let shown = (48 + n % 10) ∷ rest in
    let more = digits fuel (n / 10) shown in if ltb n 10 then shown else more

-- `str(n)`
unfoldable pub decimal : ℕ → Text
unfolding digits
decimal n = digits (n + 1) n []

-- The number that a text of digits denotes, read from the left.
unfoldable pub read_decimal : ℕ → Text → ℕ
read_decimal acc [] = acc
read_decimal acc (c ∷ cs) = read_decimal (acc * 10 + (c - 48)) cs

read-digits :
    (fuel n : ℕ) (rest : Text)
    → n < fuel
    → read_decimal 0 (digits fuel n rest) ≡ read_decimal n rest
unfolding digits read_decimal
read-digits zero n rest low = absurd (omega (arith, low))
read-digits (suc fuel) n rest low = elim (Bool-cases (ltb n 10)) [
  | inl small ↦ rw small (ap (λ k. read_decimal k rest) (omega (arith, ltb→lt n 10 small)))
  | inr big ↦ rw big (
      read-digits fuel (n / 10) ((48 + n % 10) ∷ rest) (omega (arith, ltb→le n 10 big))
      ∙ ap (λ k. read_decimal k rest) (omega arith))
]

-- The decimal text of a number, read back digit by digit, is the number.
pub read-decimal : (n : ℕ) → read_decimal 0 (decimal n) ≡ n
unfolding decimal read_decimal
read-decimal n = read-digits (n + 1) n [] (omega arith)
