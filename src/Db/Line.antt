-- ===== src/Db/Line.antt =====
-- `extract_string` and `parse_db_line` of src/db.c.
pub mod Local
pub mod Written
pub mod RoundTrip
use hddtemp.Prelude.{
  ℕ, ◌+◌, ◌-◌, ◌*◌, ◌%◌, ◌^◌, Bool, true, false, not, ◌&&◌, ◌||◌, [], ◌∷◌, ◌++◌, leb, ◌==◌,
  if◌then◌else◌, Bytes,
}
use hddtemp.Printf.{is_digit}
use hddtemp.Db.{HarddriveEntry}
use hddtemp.Db.Memory.{Read, Walk, ok, reject, fault, ◌>>=◌, ◌>>◌, pure, peek, next, require}

abbrev pub is_blank : ℕ → Bool
is_blank c = c == b' ' || c == b'\t'

-- What `*p = '\0'` and `strdup` see: the bytes before the first NUL.
unfoldable pub c_string : Bytes → Bytes
c_string [] = []
c_string (c ∷ m) = if c == 0 then [] else c ∷ c_string m

unfoldable pub cons_read : ℕ → Read Bytes → Read Bytes
cons_read c (ok bs m) = ok (c ∷ bs) m
cons_read c reject = reject
cons_read c fault = fault

-- `p += strspn(p, " \t")`: the bytes passed over. The scan ends at a byte that is not a blank.
unfoldable pub skip_blanks : Walk Bytes
unfolding cons_read
skip_blanks [] = fault
skip_blanks (c ∷ m) = if is_blank c then cons_read c (skip_blanks m) else ok [] (c ∷ m)

-- The loop of `extract_string` behind the opening quote: the bytes up to the closing quote, with
-- the pointer on that quote. The flag is true on the byte that `str++` of the case `'\'` passes
-- over, whatever that byte is.
unfoldable pub scan_string : Bool → Walk Bytes
unfolding cons_read
scan_string escaped [] = fault
scan_string true (c ∷ m) = cons_read c (scan_string false m)
scan_string false (c ∷ m) =
    if c == 0
    then reject
    else if c == b'"'
    then ok [] (c ∷ m)
    else cons_read c (scan_string (c == b'\\') m)

-- `extract_string`, and the step behind the closing quote that both callers take.
unfoldable pub extract_string : Walk Bytes
unfolding scan_string peek next require pure
extract_string = do c ← peek; require (c == b'"'); next; s ← scan_string false; next; pure s

unfoldable pub cons_digit : ℕ → Read (ℕ × Bytes) → Read (ℕ × Bytes)
cons_digit c (ok (v, ds) m) = ok (v, c ∷ ds) m
cons_digit c reject = reject
cons_digit c fault = fault

-- `value = 10*value + *p-'0'`, where `value` is an `unsigned short`.
abbrev pub digit_step : ℕ → ℕ → ℕ
digit_step value c = (10 * value + (c - b'0')) % 2 ^ 16

-- The digit loop: the value, and the digits passed over.
unfoldable pub read_value : ℕ → Walk (ℕ × Bytes)
unfolding cons_digit
read_value value [] = fault
read_value value (c ∷ m) =
    let rest = read_value (digit_step value c) m in
    if is_digit c then cons_digit c rest else ok (value, []) (c ∷ m)

-- `line += strspn(line, " \t"); if(!*line) return 1;`
unfoldable pub skip_to_field : Walk Bytes
unfolding skip_blanks peek require pure
skip_to_field = do bs ← skip_blanks; c ← peek; require (not (c == 0)); pure bs

-- `parse_db_line` from the regexp on: the new entry, and the bytes that stand in the buffer before
-- the pointer, where both closing quotes are overwritten by NUL.
unfoldable pub parse_entry : Walk (HarddriveEntry × Bytes)
unfolding extract_string skip_to_field read_value skip_blanks scan_string peek next require pure
    c_string
parse_entry = do
  regexp ← extract_string
  b₁ ← skip_to_field
  (value, digits) ← read_value 0
  c ← peek
  require (is_blank c)
  b₂ ← skip_to_field
  unit ← peek
  require (unit == b'C' || unit == b'F')
  next
  d ← peek
  require (is_blank d)
  b₃ ← skip_to_field
  description ← extract_string
  pure (
    record {
      regexp = c_string regexp;
      attribute_id = value;
      description = c_string description;
      unit = unit;
    },
    b'"'
        ∷ (regexp
            ++ (0
                ∷ (b₁ ++ (digits ++ (b₂ ++ (unit ∷ (b₃ ++ (b'"' ∷ (description ++ (0 ∷ [])))))))))),
  )

-- What a call of `parse_db_line` does: it returns 0 with no entry, returns 1, appends an entry and
-- leaves these bytes from its argument on, or reads behind the buffer.
pub data LineResult : Type 0 where
  no_entry : LineResult
  syntax_error : LineResult
  entry : HarddriveEntry → Bytes → LineResult
  overrun : LineResult

to_line_result : Bytes → Read (HarddriveEntry × Bytes) → LineResult
to_line_result blanks (ok (e, written) m) = entry e (blanks ++ (written ++ m))
to_line_result blanks reject = syntax_error
to_line_result blanks fault = overrun

parse_from : Read Bytes → LineResult
unfolding to_line_result parse_entry
parse_from (ok blanks []) = overrun
parse_from (ok blanks (c ∷ m)) =
    if c == b'#' || c == 0 then no_entry else to_line_result blanks (parse_entry (c ∷ m))
parse_from reject = syntax_error
parse_from fault = overrun

unfoldable pub parse_db_line : Bytes → LineResult
unfolding parse_from skip_blanks
parse_db_line m = parse_from (skip_blanks m)
