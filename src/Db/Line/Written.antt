-- ===== src/Db/Line/Written.antt =====
-- `parse_db_line` changes bytes of its line, and moves none.
use hddtemp.Prelude.{
  ℕ, ◌+◌, Bool, true, false, [], ◌∷◌, ◌++◌, ◌≡◌, refl, ◌==◌, ◌||◌, Bytes, Bool-cases, inl, inr,
  arith, length, length-append,
}
use hddtemp.Db.{HarddriveEntry}
use hddtemp.Printf.{is_digit}
use hddtemp.Db.Memory.{Read, Walk, ok, reject, fault, ◌>>=◌, bind-eq-ok, peek, next, require, pure}
use hddtemp.Db.Line.{
  cons_read, cons_digit, skip_blanks, scan_string, extract_string, read_value, skip_to_field,
  parse_entry, parse_db_line, parse_from, to_line_result, entry, is_blank, digit_step,
}

-- `p` passes over bytes, so that the count of bytes passed goes from `n` to `k a`.
pub record Passes {ℓ} {A : Type ℓ} (n : ℕ) (k : A → ℕ) (p : Walk A) : Type ℓ where
  pub at : (m : Bytes) (a : A) (m' : Bytes) → p m ≡ ok a m' → k a + length m' ≡ n + length m

cons_read-inv :
    (c : ℕ) (r : Read Bytes) {a m' : Bytes}
    → cons_read c r ≡ ok a m'
    → (bs : Bytes) × (r ≡ ok bs m') × (a ≡ c ∷ bs)
unfolding cons_read
cons_read-inv c (ok bs m) h = (bs, cc, cc)
cons_read-inv c reject h = cc
cons_read-inv c fault h = cc

cons_digit-inv :
    (c : ℕ) (r : Read (ℕ × Bytes)) {a : ℕ × Bytes} {m' : Bytes}
    → cons_digit c r ≡ ok a m'
    → (b : ℕ × Bytes) × (r ≡ ok b m') × (a ≡ (b.0, c ∷ b.1))
unfolding cons_digit
cons_digit-inv c (ok (v, ds) m) h = ((v, ds), cc, cc)
cons_digit-inv c reject h = cc
cons_digit-inv c fault h = cc

skip_blanks_at : (m a m' : Bytes) → skip_blanks m ≡ ok a m' → length a + length m' ≡ length m
unfolding skip_blanks
skip_blanks_at [] a m' h = cc
skip_blanks_at (c ∷ m) a m' h = elim (Bool-cases (is_blank c)) [
  | inl e ↦
      let (bs, r, q) = cons_read-inv c (skip_blanks m) (rw e at h) in
      rw q (omega (arith, skip_blanks_at m bs m' r))
  | inr e ↦ ground (arith, e, h)
]

scan_string_at :
    (escaped : Bool) (m a m' : Bytes)
    → scan_string escaped m ≡ ok a m'
    → length a + length m' ≡ length m
unfolding scan_string
scan_string_at true [] a m' h = cc
scan_string_at false [] a m' h = cc
scan_string_at true (c ∷ m) a m' h =
    let (bs, r, q) = cons_read-inv c (scan_string false m) h in
    rw q (omega (arith, scan_string_at false m bs m' r))
scan_string_at false (c ∷ m) a m' h = elim (Bool-cases (c == 0)) [
  | inl e ↦ cc (rw e at h)
  | inr e ↦ elim (Bool-cases (c == b'"')) [
    | inl e₁ ↦ ground (arith, e, e₁, h)
    | inr e₁ ↦
        let (bs, r, q) = cons_read-inv c (scan_string (c == b'\\') m) (rw (e, e₁) at h) in
        rw q (omega (arith, scan_string_at (c == b'\\') m bs m' r))
  ]
]

read_value_at :
    (value : ℕ) (m : Bytes) (a : ℕ × Bytes) (m' : Bytes)
    → read_value value m ≡ ok a m'
    → length a.1 + length m' ≡ length m
unfolding read_value
read_value_at value [] a m' h = cc
read_value_at value (c ∷ m) a m' h = elim (Bool-cases (is_digit c)) [
  | inl e ↦
      let (b, r, q) = cons_digit-inv c (read_value (digit_step value c) m) (rw e at h) in
      rw q (omega (arith, read_value_at (digit_step value c) m b m' r))
  | inr e ↦ ground (arith, e, h)
]

peek_at : (n : ℕ) (m : Bytes) (a : ℕ) (m' : Bytes) → peek m ≡ ok a m' → n + length m' ≡ n + length m
unfolding peek
peek_at n [] a m' h = cc
peek_at n (c ∷ m) a m' h = ground arith

next_at :
    (n : ℕ) (m : Bytes) (a : ℕ) (m' : Bytes) → next m ≡ ok a m' → n + 1 + length m' ≡ n + length m
unfolding next
next_at n [] a m' h = cc
next_at n (c ∷ m) a m' h = ground arith

require_at :
    (n : ℕ) (b : Bool) (m : Bytes) (a : Unit {0}) (m' : Bytes)
    → require b m ≡ ok a m'
    → n + length m' ≡ n + length m
unfolding require
require_at n true m a m' h = ground arith
require_at n false m a m' h = cc

module _ (n : ℕ) where
  Passes-peek : Passes n (λ _. n) peek
  Passes-peek = record { at = peek_at n }

  Passes-next : Passes n (λ _. n + 1) next
  Passes-next = record { at = next_at n }

  Passes-require : (b : Bool) → Passes n (λ _. n) (require b)
  Passes-require b = record { at = require_at n b }

  Passes-skip_blanks : Passes n (λ bs. n + length bs) skip_blanks
  Passes-skip_blanks = record { at = λ m a m' h. omega (arith, skip_blanks_at m a m' h) }

  Passes-scan_string : (escaped : Bool) → Passes n (λ bs. n + length bs) (scan_string escaped)
  Passes-scan_string escaped = record {
    at = λ m a m' h. omega (arith, scan_string_at escaped m a m' h);
  }

  Passes-read_value : (value : ℕ) → Passes n (λ r. n + length r.1) (read_value value)
  Passes-read_value value = record { at = λ m a m' h. omega (arith, read_value_at value m a m' h) }

module _ {ℓ} {A : Type ℓ} where
  Passes-pure : (n : ℕ) (k : A → ℕ) (a : A) → k a ≡ n → Passes n k (pure a)
  unfolding pure
  Passes-pure n k a e = record { at = λ m b m' h. ground (arith, h) }

module _ {ℓ κ} {A : Type ℓ} {B : Type κ} where
  Passes-bind :
      {n : ℕ} {k : A → ℕ} {l : B → ℕ} {p : Walk A} {f : A → Walk B}
      → Passes n k p
      → ((a : A) → Passes (k a) l (f a))
      → Passes n l (p >>= f)
  Passes-bind {p} {f} hp hf = record {
    at = λ m b m' h.
        let (a, m₁, e, h₁) = bind-eq-ok p f m h in
        omega (arith, hp.at m a m₁ e, (hf a).at m₁ b m' h₁);
  }

Passes-extract_string : (n : ℕ) → Passes n (λ s. n + length s + 2) extract_string
unfolding extract_string
Passes-extract_string n = Passes-bind (Passes-peek n) λ c. Passes-bind (Passes-require n _) λ _.
    Passes-bind (Passes-next n) λ _.
      Passes-bind (Passes-scan_string _ false)
        λ s. Passes-bind (Passes-next _) λ _. Passes-pure _ _ s (omega arith)

Passes-skip_to_field : (n : ℕ) → Passes n (λ bs. n + length bs) skip_to_field
unfolding skip_to_field
Passes-skip_to_field n = Passes-bind (Passes-skip_blanks n) λ bs.
    Passes-bind (Passes-peek _) λ c. Passes-bind (Passes-require _ _) λ _. Passes-pure _ _ bs refl

-- The bytes that `parse_db_line` leaves in front of the pointer are as many as it passed over.
Passes-parse_entry : Passes 0 (λ r. length r.1) parse_entry
unfolding parse_entry
Passes-parse_entry = Passes-bind (Passes-extract_string 0) λ regexp.
    Passes-bind (Passes-skip_to_field _) λ b₁. Passes-bind (Passes-read_value _ 0) λ r.
      Passes-bind (Passes-peek _) λ c. Passes-bind (Passes-require _ _) λ _.
        Passes-bind (Passes-skip_to_field _) λ b₂. Passes-bind (Passes-peek _) λ u.
          Passes-bind (Passes-require _ _) λ _. Passes-bind (Passes-next _) λ _.
            Passes-bind (Passes-peek _) λ d. Passes-bind (Passes-require _ _) λ _.
              Passes-bind (Passes-skip_to_field _) λ b₃.
                Passes-bind (Passes-extract_string _)
                  λ s. Passes-pure _ _ _ (simp (length-append) (omega arith))

entry-inv :
    (blanks : Bytes) (r : Read (HarddriveEntry × Bytes)) {e : HarddriveEntry} {w : Bytes}
    → to_line_result blanks r ≡ entry e w
    → (b : HarddriveEntry × Bytes) × (m : Bytes) × (r ≡ ok b m) × (w ≡ blanks ++ (b.1 ++ m))
unfolding to_line_result
entry-inv blanks (ok (e, written) m) h = ((e, written), m, refl, cc)
entry-inv blanks reject h = cc
entry-inv blanks fault h = cc

parse_from-length :
    (r : Read Bytes) {e : HarddriveEntry} {w : Bytes}
    → parse_from r ≡ entry e w
    → (blanks m : Bytes) × (r ≡ ok blanks m) × (length w ≡ length blanks + length m)
unfolding parse_from
parse_from-length (ok blanks []) h = cc
parse_from-length (ok blanks (c ∷ m)) h = elim (Bool-cases (c == b'#' || c == 0)) [
  | inl e ↦ cc (rw e at h)
  | inr e ↦
      let (b, m', q, w) = entry-inv blanks (parse_entry (c ∷ m)) (rw e at h) in
      (
        blanks,
        c ∷ m,
        refl,
        rw w (simp length-append (omega (arith, Passes-parse_entry.at (c ∷ m) b m' q))),
      )
]
parse_from-length reject h = cc
parse_from-length fault h = cc

-- A line that adds an entry keeps its length in the buffer.
pub parse_db_line-length :
    (m : Bytes) {e : HarddriveEntry} {w : Bytes} → parse_db_line m ≡ entry e w → length w ≡ length m
unfolding parse_db_line
parse_db_line-length m h =
    let (blanks, m', q, w) = parse_from-length (skip_blanks m) h in
    omega (arith, skip_blanks_at m blanks m' q, w)
