-- ===== src/Db/Line/RoundTrip.antt =====
-- What a well-formed line of the database gives, whatever stands behind it in the buffer.
use hddtemp.Prelude.{
  ℕ, ◌+◌, ◌-◌, ◌*◌, ◌%◌, ◌^◌, true, false, [], ◌∷◌, ◌++◌, ◌≡◌, ◌≢◌, refl, ap, append_assoc, ◌==◌,
  ◌||◌, Bytes, arith, ◌⊎◌, inl, inr,
}
use hddtemp.Db.{HarddriveEntry}
use hddtemp.Printf.{is_digit, decimal, IsDigits}
use hddtemp.Db.Memory.{ok, ◌>>=◌, peek, next, require, pure}
use hddtemp.Db.Line.{
  c_string, cons_read, cons_digit, skip_blanks, scan_string, extract_string, read_value,
  skip_to_field, parse_entry, parse_db_line, parse_from, to_line_result, entry, no_entry, is_blank,
  digit_step,
}

-- The inside of a quoted string: no NUL, and a quote or a backslash only behind a backslash.
pub data IsQuoted : Bytes → Type 0 where
  nil : IsQuoted []
  plain :
      {c : ℕ} {s : Bytes}
      → (c == 0 || c == b'"' || c == b'\\') ≡ false
      → IsQuoted s
      → IsQuoted (c ∷ s)
  escaped : {c : ℕ} {s : Bytes} → (c == 0) ≡ false → IsQuoted s → IsQuoted (b'\\' ∷ c ∷ s)

abbrev pub IsBlanks : Bytes → Type 0
IsBlanks [] = Unit {0}
IsBlanks (c ∷ s) = (is_blank c ≡ true) × IsBlanks s

scan_string-IsQuoted :
    {s : Bytes} (rest : Bytes)
    → IsQuoted s
    → scan_string false (s ++ b'"' ∷ rest) ≡ ok s (b'"' ∷ rest)
unfolding scan_string cons_read
scan_string-IsQuoted rest nil = refl
scan_string-IsQuoted rest (plain {c} h q) = ground (arith, h, scan_string-IsQuoted rest q)
scan_string-IsQuoted rest (escaped {c} h q) = ground (arith, scan_string-IsQuoted rest q)

c_string-IsQuoted : {s : Bytes} → IsQuoted s → c_string s ≡ s
unfolding c_string
c_string-IsQuoted nil = refl
c_string-IsQuoted (plain {c} h q) = ground (arith, c_string-IsQuoted q)
c_string-IsQuoted (escaped {c} h q) = ground (arith, c_string-IsQuoted q)

extract_string-IsQuoted :
    {s : Bytes} (rest : Bytes) → IsQuoted s → extract_string (b'"' ∷ (s ++ b'"' ∷ rest)) ≡ ok s rest
unfolding extract_string peek next require pure
extract_string-IsQuoted rest q = rw (scan_string-IsQuoted rest q, ◌>>=◌)

skip_blanks-IsBlanks :
    (bs : Bytes) (c : ℕ) (rest : Bytes)
    → IsBlanks bs
    → is_blank c ≡ false
    → skip_blanks (bs ++ c ∷ rest) ≡ ok bs (c ∷ rest)
unfolding skip_blanks cons_read
skip_blanks-IsBlanks [] c rest hb hc = ground arith
skip_blanks-IsBlanks (b ∷ bs) c rest hb hc = rw hb.0 (rw (skip_blanks-IsBlanks bs c rest hb.1 hc))

skip_to_field-IsBlanks :
    (bs : Bytes) (c : ℕ) (rest : Bytes)
    → IsBlanks bs
    → (is_blank c || c == 0) ≡ false
    → skip_to_field (bs ++ c ∷ rest) ≡ ok bs (c ∷ rest)
unfolding skip_to_field peek require pure
skip_to_field-IsBlanks bs c rest hb hc =
    rw (skip_blanks-IsBlanks bs c rest hb (ground arith), ◌>>=◌) (ground arith)

-- The digit loop computes modulo 2^16, whatever the number.
read_value-IsDigits :
    (ds : Bytes) (v n : ℕ) (c : ℕ) (rest : Bytes)
    → v ≡ n % 2 ^ 16
    → IsDigits ds
    → is_digit c ≡ false
    → read_value v (ds ++ c ∷ rest) ≡ ok (decimal n ds % 2 ^ 16, ds) (c ∷ rest)
unfolding read_value cons_digit
read_value-IsDigits [] v n c rest e hd hc = rw (hc, e)
read_value-IsDigits (d ∷ ds) v n c rest e hd hc = rw (
  hd.0,
  read_value-IsDigits ds (digit_step v d) (10 * n + (d - b'0')) c rest (omega arith) hd.1 hc,
)

-- A line `blanks "regexp" blanks digits blanks unit blanks "description"`.
pub record Fields : Type 0 where
  pub b₀ : Bytes
  pub regexp : Bytes
  pub b₁ : Bytes
  pub digits : Bytes
  pub b₂ : Bytes
  pub unit : ℕ
  pub b₃ : Bytes
  pub description : Bytes

pub record IsEntryLine (f : Fields) : Type 0 where
  pub b₀_blanks : IsBlanks f.b₀
  pub regexp_quoted : IsQuoted f.regexp
  pub b₁_blanks : IsBlanks f.b₁
  pub digits_ne_nil : f.digits ≢ []
  pub digits_only : IsDigits f.digits
  pub b₂_ne_nil : f.b₂ ≢ []
  pub b₂_blanks : IsBlanks f.b₂
  pub unit_known : (f.unit ≡ b'C') ⊎ (f.unit ≡ b'F')
  pub b₃_ne_nil : f.b₃ ≢ []
  pub b₃_blanks : IsBlanks f.b₃
  pub description_quoted : IsQuoted f.description

skip_to_field-IsDigits :
    (bs ds rest : Bytes)
    → IsBlanks bs
    → ds ≢ []
    → IsDigits ds
    → skip_to_field (bs ++ (ds ++ rest)) ≡ ok bs (ds ++ rest)
skip_to_field-IsDigits bs [] rest hb n hd = absurd (n refl)
skip_to_field-IsDigits bs (d ∷ ds) rest hb n hd =
    skip_to_field-IsBlanks bs d (ds ++ rest) hb (ground (arith, hd.0))

read_value_field :
    (ds bs rest : Bytes)
    → IsDigits ds
    → bs ≢ []
    → IsBlanks bs
    → read_value 0 (ds ++ (bs ++ rest)) ≡ ok (decimal 0 ds % 2 ^ 16, ds) (bs ++ rest)
read_value_field ds [] rest hd n hb = absurd (n refl)
read_value_field ds (b ∷ bs) rest hd n hb =
    read_value-IsDigits ds 0 0 b (bs ++ rest) refl hd (ground (arith, hb.0))

peek_blank :
    (bs rest : Bytes)
    → bs ≢ []
    → IsBlanks bs
    → (c : ℕ) × (peek (bs ++ rest) ≡ ok c (bs ++ rest)) × (is_blank c ≡ true)
unfolding peek
peek_blank [] rest n hb = absurd (n refl)
peek_blank (b ∷ bs) rest n hb = (b, refl, hb.0)

-- The bytes of `parse_entry`'s part of the line, with `q` in the places of the closing quotes.
abbrev pub entry_bytes : ℕ → Fields → Bytes → Bytes
entry_bytes q f rest =
    b'"'
    ∷ (f.regexp
        ++ (q
            ∷ (f.b₁
                ++ (f.digits
                    ++ (f.b₂ ++ (f.unit ∷ (f.b₃ ++ (b'"' ∷ (f.description ++ (q ∷ rest))))))))))

-- The bytes of the whole line.
abbrev pub line_bytes : ℕ → Fields → Bytes → Bytes
line_bytes q f rest = f.b₀ ++ entry_bytes q f rest

abbrev pub field_entry : Fields → HarddriveEntry
field_entry f = record {
  regexp = f.regexp;
  attribute_id = decimal 0 f.digits % 2 ^ 16;
  description = f.description;
  unit = f.unit;
}

module _ (f : Fields) (rest : Bytes) (h : IsEntryLine f) where
  unit_test : (f.unit == b'C' || f.unit == b'F') ≡ true
  unit_test = elim h.unit_known [ inl e ↦ rw e | inr e ↦ rw e ]

  unit_start : (is_blank f.unit || f.unit == 0) ≡ false
  unit_start = elim h.unit_known [ inl e ↦ rw e | inr e ↦ rw e ]

  parse_entry-line :
      parse_entry (entry_bytes b'"' f rest) ≡ ok (field_entry f, entry_bytes 0 f []) rest
  unfolding parse_entry
  parse_entry-line =
      let quoted : Bytes = b'"' ∷ (f.description ++ (b'"' ∷ rest)) in
      let (c₂, p₂, t₂) = peek_blank f.b₂ (f.unit ∷ (f.b₃ ++ quoted)) h.b₂_ne_nil h.b₂_blanks in
      let (c₃, p₃, t₃) = peek_blank f.b₃ quoted h.b₃_ne_nil h.b₃_blanks in
      rw (extract_string-IsQuoted _ h.regexp_quoted, ◌>>=◌)
        (rw
          (skip_to_field-IsDigits f.b₁ f.digits _ h.b₁_blanks h.digits_ne_nil h.digits_only, ◌>>=◌)
          (rw (read_value_field f.digits f.b₂ _ h.digits_only h.b₂_ne_nil h.b₂_blanks, ◌>>=◌)
            (rw (p₂, ◌>>=◌)
              (unfold require in
                rw (t₂, ◌>>=◌)
                  (rw (skip_to_field-IsBlanks f.b₂ f.unit _ h.b₂_blanks unit_start, ◌>>=◌)
                    (unfold peek next in
                      rw (unit_test, ◌>>=◌)
                        (rw (p₃, ◌>>=◌)
                          (rw (t₃, ◌>>=◌)
                            (rw (skip_to_field-IsBlanks f.b₃ b'"' _ h.b₃_blanks refl, ◌>>=◌)
                              (rw (extract_string-IsQuoted rest h.description_quoted, ◌>>=◌)
                                (unfold pure in
                                  rw (
                                    c_string-IsQuoted h.regexp_quoted,
                                    c_string-IsQuoted h.description_quoted,
                                  ))))))))))))

  entry_bytes-append : entry_bytes 0 f [] ++ rest ≡ entry_bytes 0 f rest
  entry_bytes-append = simp append_assoc

  -- A line of the documented form, with whatever stands behind it, gives its fields: the strings as
  -- they are written, the digits' number modulo 2^16, the unit. In the buffer both closing quotes
  -- become NUL and nothing else changes.
  pub parse_db_line-line_bytes :
      parse_db_line (line_bytes b'"' f rest) ≡ entry (field_entry f) (line_bytes 0 f rest)
  unfolding parse_db_line parse_from to_line_result
  parse_db_line-line_bytes =
      rw (skip_blanks-IsBlanks f.b₀ b'"' _ h.b₀_blanks refl)
        (rw (parse_entry-line) (ap (λ m. entry (field_entry f) (f.b₀ ++ m)) entry_bytes-append))

-- A comment, or a line of blanks alone, adds nothing.
pub parse_db_line-comment :
    (bs : Bytes) (c : ℕ) (rest : Bytes)
    → IsBlanks bs
    → (c ≡ b'#') ⊎ (c ≡ 0)
    → parse_db_line (bs ++ c ∷ rest) ≡ no_entry
unfolding parse_db_line parse_from
parse_db_line-comment bs c rest hb (inl e) = rw e (rw (skip_blanks-IsBlanks bs b'#' rest hb refl))
parse_db_line-comment bs c rest hb (inr e) = rw e (rw (skip_blanks-IsBlanks bs 0 rest hb refl))
