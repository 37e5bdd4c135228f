-- ===== src/Printf.antt =====
-- What `printf` and `snprintf` do with the formats of the source: `%d` and `%5d` of an `int`, and the
-- copy of the text into a buffer.
use hddtemp.Prelude.{
  ℕ, zero, suc, ◌+◌, ◌-◌, ◌*◌, ◌/◌, ◌%◌, ◌<◌, [], ◌∷◌, ◌++◌, ◌≡◌, ap, ◌∙◌, ltb, if◌then◌else◌,
  Bytes, arith, length, replicate, Bool-cases, inl, inr, leb, Bool, true, ◌&&◌,
}
use hddtemp.Prelude.Int.{ℤ, pos, negsuc}

-- The digits of `n` in front of `rest`; `n` has fewer than `fuel` digits.
unfoldable pub digits_onto : ℕ → ℕ → Bytes → Bytes
digits_onto zero n rest = rest
digits_onto (suc fuel) n rest =
    let more = digits_onto fuel (n / 10) ((b'0' + n % 10) ∷ rest) in
    if ltb n 10 then (b'0' + n) ∷ rest else more

-- `%d` of a number that is not negative.
unfoldable pub show_nat : ℕ → Bytes
unfolding digits_onto
show_nat n = digits_onto (n + 1) n []

-- `%d`
unfoldable pub show_int : ℤ → Bytes
unfolding show_nat
show_int (pos n) = show_nat n
show_int (negsuc n) = b'-' ∷ show_nat (n + 1)

-- `%5d`
unfoldable pub pad_left : ℕ → Bytes → Bytes
pad_left width s = replicate (width - length s) b' ' ++ s

-- The number that the digits `ds` write behind those of `n`.
abbrev pub decimal : ℕ → Bytes → ℕ
decimal n [] = n
decimal n (c ∷ ds) = decimal (10 * n + (c - b'0')) ds

abbrev pub is_digit : ℕ → Bool
is_digit c = leb b'0' c && leb c b'9'

abbrev pub IsDigits : Bytes → Type 0
IsDigits [] = Unit {0}
IsDigits (c ∷ s) = (is_digit c ≡ true) × IsDigits s

decimal-digits_onto :
    (fuel n : ℕ) (rest : Bytes) → n < fuel → decimal 0 (digits_onto fuel n rest) ≡ decimal n rest
unfolding digits_onto
decimal-digits_onto zero n rest lt = absurd (omega arith)
decimal-digits_onto (suc fuel) n rest lt = elim (Bool-cases (ltb n 10)) [
  | inl e ↦ rw e (ap (λ m. decimal m rest) (omega arith))
  | inr e ↦ rw e (
      decimal-digits_onto fuel (n / 10) ((b'0' + n % 10) ∷ rest) (ground arith)
      ∙ ap (λ m. decimal m rest) (omega arith))
]

-- `%d` writes the number.
pub decimal-show_nat : (n : ℕ) → decimal 0 (show_nat n) ≡ n
unfolding show_nat
decimal-show_nat n = decimal-digits_onto (n + 1) n [] (omega arith)

IsDigits-digits_onto :
    (fuel n : ℕ) (rest : Bytes) → IsDigits rest → IsDigits (digits_onto fuel n rest)
unfolding digits_onto
IsDigits-digits_onto zero n rest h = h
IsDigits-digits_onto (suc fuel) n rest h = elim (Bool-cases (ltb n 10)) [
  | inl e ↦ rw e (ground arith, h)
  | inr e ↦ rw e (IsDigits-digits_onto fuel (n / 10) ((b'0' + n % 10) ∷ rest) (ground arith, h))
]

pub IsDigits-show_nat : (n : ℕ) → IsDigits (show_nat n)
unfolding show_nat
IsDigits-show_nat n = IsDigits-digits_onto (n + 1) n [] tt
