-- ===== src/Decimal.antt =====
-- The decimal digits of a number, and `f"{n:03d}"`.
use Prim.Native.String.{◌++◌ as join}
use standards_control_plane.Prelude.{
  Bool-cases, String, ap, arith, if◌then◌else◌, inl, inr, ltb, nat_eq, refl, suc, zero, ℕ, ◌%◌, ◌/◌,
  ◌≡◌, ◌≤◌,
}

abbrev digit : ℕ → String
digit n =
    if nat_eq n 0
    then "0"
    else if nat_eq n 1
    then "1"
    else if nat_eq n 2
    then "2"
    else if nat_eq n 3
    then "3"
    else if nat_eq n 4
    then "4"
    else if nat_eq n 5
    then "5"
    else if nat_eq n 6
    then "6"
    else if nat_eq n 7
    then "7"
    else if nat_eq n 8
    then "8"
    else "9"

-- On fuel: the number itself is enough.
unfoldable decimal_from : ℕ → ℕ → String
decimal_from zero n = digit (n % 10)
decimal_from (suc fuel) n =
    let higher = decimal_from fuel (n / 10) in
    if ltb n 10 then digit n else join higher (digit (n % 10))

unfoldable pub decimal : ℕ → String
unfolding decimal_from
decimal n = decimal_from n n

unfoldable pub padded : ℕ → String
unfolding decimal
padded n =
    if ltb n 10
    then join "00" (decimal n)
    else if ltb n 100
    then join "0" (decimal n)
    else decimal n

-- Any fuel that is at least the number gives the same digits.
decimal_from_enough : (f g n : ℕ) → n ≤ f → n ≤ g → decimal_from f n ≡ decimal_from g n
unfolding decimal_from
decimal_from_enough zero zero n hf hg = refl
decimal_from_enough zero (suc g) zero hf hg = refl
decimal_from_enough zero (suc g) (suc n) hf hg = absurd (omega arith)
decimal_from_enough (suc f) zero zero hf hg = refl
decimal_from_enough (suc f) zero (suc n) hf hg = absurd (omega arith)
decimal_from_enough (suc f) (suc g) n hf hg = elim (Bool-cases (ltb n 10)) [
  | inl small ↦ rw small refl
  | inr large ↦ rw large (
      ap (λ s. join s (digit (n % 10)))
        (decimal_from_enough f g (n / 10) (ground arith) (ground arith)))
]
