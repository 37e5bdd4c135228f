-- ===== src/Db/Line/Local.antt =====
-- Where the line parser does not read behind a buffer, what stands behind it changes nothing: the
-- parser is given a line and the rest of the loader's buffer, and sees the line alone.
use hddtemp.Prelude.{
  ℕ, Bool, true, false, [], ◌∷◌, ◌++◌, ◌≡◌, ◌≢◌, refl, append_assoc, ◌==◌, ◌||◌, Bytes, Bool-cases,
  inl, inr,
}
use hddtemp.Db.{HarddriveEntry}
use hddtemp.Printf.{is_digit}
use hddtemp.Db.Memory.{Read, ok, reject, fault, onto, IsLocal, local_rules}
use hddtemp.Db.Line.{
  cons_read, cons_digit, skip_blanks, scan_string, extract_string, read_value, skip_to_field,
  parse_entry, parse_db_line, parse_from, to_line_result, LineResult, no_entry, syntax_error, entry,
  overrun, is_blank, digit_step,
}

cons_read_at :
    (c : ℕ) (tail : Bytes) (r r' : Read Bytes)
    → (r ≢ fault → r' ≡ onto tail r)
    → cons_read c r ≢ fault
    → cons_read c r' ≡ onto tail (cons_read c r)
unfolding cons_read
cons_read_at c tail (ok a m) r' h n = rw (h (λ e. cc))
cons_read_at c tail reject r' h n = rw (h (λ e. cc))
cons_read_at c tail fault r' h n = absurd (n refl)

cons_digit_at :
    (c : ℕ) (tail : Bytes) (r r' : Read (ℕ × Bytes))
    → (r ≢ fault → r' ≡ onto tail r)
    → cons_digit c r ≢ fault
    → cons_digit c r' ≡ onto tail (cons_digit c r)
unfolding cons_digit
cons_digit_at c tail (ok (v, ds) m) r' h n = rw (h (λ e. cc))
cons_digit_at c tail reject r' h n = rw (h (λ e. cc))
cons_digit_at c tail fault r' h n = absurd (n refl)

skip_blanks_at :
    (m tail : Bytes) → skip_blanks m ≢ fault → skip_blanks (m ++ tail) ≡ onto tail (skip_blanks m)
unfolding skip_blanks
skip_blanks_at [] tail n = absurd (n refl)
skip_blanks_at (c ∷ m) tail n = elim (Bool-cases (is_blank c)) [
  | inl e ↦ rw e (cons_read_at c tail _ _ (skip_blanks_at m tail) (rw e at n))
  | inr e ↦ rw e refl
]

scan_string_at :
    (escaped : Bool) (m tail : Bytes)
    → scan_string escaped m ≢ fault
    → scan_string escaped (m ++ tail) ≡ onto tail (scan_string escaped m)
unfolding scan_string
scan_string_at true [] tail n = absurd (n refl)
scan_string_at false [] tail n = absurd (n refl)
scan_string_at true (c ∷ m) tail n = cons_read_at c tail _ _ (scan_string_at false m tail) n
scan_string_at false (c ∷ m) tail n = elim (Bool-cases (c == 0)) [
  | inl e ↦ rw e refl
  | inr e ↦ rw e (elim (Bool-cases (c == b'"')) [
    | inl e₁ ↦ rw e₁ refl
    | inr e₁ ↦
        rw e₁ (cons_read_at c tail _ _ (scan_string_at (c == b'\\') m tail) (rw (e, e₁) at n))
  ])
]

read_value_at :
    (value : ℕ) (m tail : Bytes)
    → read_value value m ≢ fault
    → read_value value (m ++ tail) ≡ onto tail (read_value value m)
unfolding read_value
read_value_at value [] tail n = absurd (n refl)
read_value_at value (c ∷ m) tail n = elim (Bool-cases (is_digit c)) [
  | inl e ↦ rw e (cons_digit_at c tail _ _ (read_value_at (digit_step value c) m tail) (rw e at n))
  | inr e ↦ rw e refl
]

skip_blanks-IsLocal : IsLocal skip_blanks
skip_blanks-IsLocal = record { at = skip_blanks_at }

scan_string-IsLocal : (escaped : Bool) → IsLocal (scan_string escaped)
scan_string-IsLocal escaped = record { at = scan_string_at escaped }

read_value-IsLocal : (value : ℕ) → IsLocal (read_value value)
read_value-IsLocal value = record { at = read_value_at value }

ruleset parser_rules = (local_rules, skip_blanks-IsLocal, scan_string-IsLocal, read_value-IsLocal)

extract_string-IsLocal : IsLocal extract_string
unfolding extract_string
extract_string-IsLocal = search parser_rules depth 12

skip_to_field-IsLocal : IsLocal skip_to_field
unfolding skip_to_field
skip_to_field-IsLocal = search parser_rules depth 12

ruleset entry_rules = (parser_rules, extract_string-IsLocal, skip_to_field-IsLocal)

parse_entry-IsLocal : IsLocal parse_entry
unfolding parse_entry
parse_entry-IsLocal = search entry_rules depth 40

-- The same call with `tail` behind the buffer.
abbrev pub behind : Bytes → LineResult → LineResult
behind tail (entry e w) = entry e (w ++ tail)
behind tail no_entry = no_entry
behind tail syntax_error = syntax_error
behind tail overrun = overrun

to_line_result-onto :
    (blanks tail : Bytes) (r : Read (HarddriveEntry × Bytes))
    → to_line_result blanks (onto tail r) ≡ behind tail (to_line_result blanks r)
unfolding to_line_result
to_line_result-onto blanks tail (ok (e, written) m) = simp append_assoc
to_line_result-onto blanks tail reject = refl
to_line_result-onto blanks tail fault = refl

parse_from-onto :
    (tail : Bytes) (r : Read Bytes)
    → parse_from r ≢ overrun
    → parse_from (onto tail r) ≡ behind tail (parse_from r)
unfolding parse_from
parse_from-onto tail (ok blanks []) n = absurd (n refl)
parse_from-onto tail (ok blanks (c ∷ m)) n = elim (Bool-cases (c == b'#' || c == 0)) [
  | inl e ↦ rw e refl
  | inr e ↦ rw e (
      rw
        (parse_entry-IsLocal.at (c ∷ m) tail (λ q. n (rw e (rw q (unfold to_line_result in refl)))))
        (to_line_result-onto blanks tail (parse_entry (c ∷ m))))
]
parse_from-onto tail reject n = refl
parse_from-onto tail fault n = absurd (n refl)

-- If a call of `parse_db_line` on a line and its NUL does not read behind the NUL, then with any
-- `tail` behind the NUL it has the same result, and leaves `tail` as it was.
pub parse_db_line-append :
    (m tail : Bytes)
    → parse_db_line m ≢ overrun
    → parse_db_line (m ++ tail) ≡ behind tail (parse_db_line m)
unfolding parse_db_line
parse_db_line-append m tail n =
    rw (skip_blanks_at m tail (λ q. n (rw q (unfold parse_from in refl))))
      (parse_from-onto tail (skip_blanks m) n)
