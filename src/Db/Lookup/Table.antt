-- ===== src/Db/Lookup/Table.antt =====
-- The table's columns line up.
use hddtemp.Prelude.{
  ℕ, zero, suc, ◌+◌, ◌*◌, ◌/◌, ◌-◌, ◌≤◌, ◌<◌, List, [], ◌∷◌, ◌++◌, ◌≡◌, ap, if◌then◌else◌, ◌==◌,
  Bytes, length, drop, replicate, arith, length-replicate, ◌∙◌,
}
use hddtemp.Db.{HarddriveEntry}
use hddtemp.Db.Lookup.{longer, max_length, table_tabs}

-- The column of a terminal with a tab stop every eight columns, after a text of such bytes.
abbrev pub column : ℕ → Bytes → ℕ
column c [] = c
column c (b ∷ s) = column (if b == b'\t' then (c / 8 + 1) * 8 else c + 1) s

max_length-le : (max : ℕ) (entries : List HarddriveEntry) → max ≤ max_length max entries
unfolding max_length
max_length-le max [] = omega arith
max_length-le max (p ∷ entries) = ground (arith, max_length-le (longer max p) entries)

max_length-append :
    (max : ℕ) (before after : List HarddriveEntry) (p : HarddriveEntry)
    → length p.regexp ≤ max_length max (before ++ p ∷ after)
unfolding max_length
max_length-append max [] after p = ground (arith, max_length-le (longer max p) after)
max_length-append max (q ∷ before) after p = max_length-append (longer max q) before after p

drop-replicate : (k n : ℕ) → drop {A = ℕ} k (replicate n b'\t') ≡ replicate (n - k) b'\t'
drop-replicate zero n = ap (λ m. replicate m b'\t') (omega arith)
drop-replicate (suc k) zero = let e : 0 ≡ 0 - suc k = omega arith in ap (λ m. replicate m b'\t') e
drop-replicate (suc k) (suc n) =
    let e : n - k ≡ suc n - suc k = omega arith in
    drop-replicate k n ∙ ap (λ m. replicate m b'\t') e

pub column_tabs : (k c : ℕ) → column c (replicate (suc k) b'\t') ≡ (c / 8 + suc k) * 8
column_tabs zero c = omega arith
column_tabs (suc k) c = column_tabs k ((c / 8 + 1) * 8) ∙ omega arith

-- The tabs behind a regexp: one at least.
pub drop-table_tabs :
    (before after : List HarddriveEntry) (p : HarddriveEntry)
    → (n : ℕ) × (drop (length p.regexp / 8) (table_tabs (before ++ p ∷ after))
        ≡ replicate (suc n) b'\t')
unfolding table_tabs
drop-table_tabs before after p =
    let m : ℕ = max_length 0 (before ++ p ∷ after) in
    let n : ℕ = length p.regexp in
    let le : n ≤ m = max_length-append 0 before after p in
    let left : m / 8 + 1 - n / 8 ≡ suc (m / 8 - n / 8) = omega arith in
    (m / 8 - n / 8, drop-replicate (n / 8) (m / 8 + 1) ∙ ap (λ i. replicate i b'\t') left)

-- `tabs+(len/8)` stays inside `tabs` and holds one tab at least, and behind a regexp and these tabs
-- every line stands at the same column.
pub column_bars :
    (before after : List HarddriveEntry) (p : HarddriveEntry)
    → (length p.regexp / 8 < length (table_tabs (before ++ p ∷ after)))
      × (column (length p.regexp) (drop (length p.regexp / 8) (table_tabs (before ++ p ∷ after)))
          ≡ 8 * length (table_tabs (before ++ p ∷ after)))
unfolding table_tabs
column_bars before after p =
    let m : ℕ = max_length 0 (before ++ p ∷ after) in
    let n : ℕ = length p.regexp in
    let le : n ≤ m = max_length-append 0 before after p in
    let size : length {A = ℕ} (replicate (m / 8 + 1) b'\t') ≡ m / 8 + 1 =
      length-replicate {A = ℕ} (m / 8 + 1) b'\t' in
    let k : ℕ = m / 8 - n / 8 in
    let left : m / 8 + 1 - n / 8 ≡ suc k = omega arith in
    let rest : drop {A = ℕ} (n / 8) (replicate (m / 8 + 1) b'\t') ≡ replicate (suc k) b'\t' =
      drop-replicate (n / 8) (m / 8 + 1) ∙ ap (λ i. replicate i b'\t') left in
    (omega (arith, size), rw rest (column_tabs k n ∙ omega (arith, size)))
