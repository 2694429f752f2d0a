-- ===== src/Std/Format.antt =====
-- `Display` of integers, as `format!` writes them.
use ethereum_elc.Base.{
  ℕ, zero, suc, ◌/◌, ◌%◌, ◌<◌, ◌≡◌, arith, String, ◌<>◌, ltb, ◌==◌, if◌then◌else◌,
}
use ethereum_elc.Std.Int.{ℤ, pos, negsuc}

digit : ℕ → String
digit d =
    if d == 0
    then "0"
    else if d == 1
    then "1"
    else if d == 2
    then "2"
    else if d == 3
    then "3"
    else if d == 4
    then "4"
    else if d == 5
    then "5"
    else if d == 6
    then "6"
    else if d == 7
    then "7"
    else if d == 8
    then "8"
    else "9"

-- The digits of `n`; each round divides `n` by ten, so `n + 1` rounds are enough.
digits_within : ℕ → ℕ → String
unfolding digit
digits_within zero n = ""
digits_within (suc fuel) n =
    let rest = digits_within fuel (n / 10) in if ltb n 10 then digit n else rest <> digit (n % 10)

unfoldable pub show_ℕ : ℕ → String
unfolding digits_within
show_ℕ n = digits_within (suc n) n

unfoldable pub show_ℤ : ℤ → String
unfolding show_ℕ
show_ℤ (pos n) = show_ℕ n
show_ℤ (negsuc n) = "-" <> show_ℕ (suc n)

-- More than `n` rounds write the same digits, however many they are.
digits_agree : (f g n : ℕ) → n < f → n < g → digits_within f n ≡ digits_within g n
unfolding digits_within
digits_agree zero g n p q = absurd (omega arith)
digits_agree (suc f) zero n p q = absurd (omega arith)
digits_agree (suc f) (suc g) n p q = grind (arith, digits_agree f g (n / 10))

digits_within_lem : (fuel n : ℕ) → n < fuel → digits_within fuel n ≡ show_ℕ n
unfolding show_ℕ
digits_within_lem fuel n p = digits_agree fuel (suc n) n p (omega arith)
