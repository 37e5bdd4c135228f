-- ===== src/Db/Lookup/Rows.antt =====
-- What `display_supported_drives` prints: a heading and a row for every entry, in columns.
use mathlib.Core.Path.{subst}
use hddtemp.Prelude.{
  ℕ, suc, ◌*◌, ◌/◌, ◌+◌, List, [], ◌∷◌, ◌++◌, ◌≡◌, refl, sym, ap, ◌∙◌, Bytes, codes, length,
  replicate, append_assoc, length-replicate, arith,
}
use hddtemp.Printf.{show_int, pad_left}
use hddtemp.Db.{HarddriveEntry}
use hddtemp.Db.Lookup.{
  short_value, table_row, table_rows, max_length, table_tabs, table_dashes,
  display_supported_drives,
}
use hddtemp.Db.Lookup.Table.{column, column_bars, column_tabs, drop-table_tabs}

-- A number of tabs, one at least.
abbrev pub tabs : ℕ → Bytes
tabs n = replicate (suc n) b'\t'

-- The bar and the fields behind it, of an entry's row.
abbrev pub fields : HarddriveEntry → Bytes
fields e =
    codes "| "
    ++ (pad_left 5 (show_int (short_value e.attribute_id))
        ++ (codes " | " ++ (e.description ++ (b'\n' ∷ []))))

-- A row for every entry, in their order: its regexp, tabs up to the column of the bar, and the fields.
abbrev pub AreRows : ℕ → List HarddriveEntry → Bytes → Type 0
AreRows bar [] text = text ≡ []
AreRows bar (e ∷ entries) text =
    (n : ℕ) × (rest : Bytes) × ((text ≡ (e.regexp ++ (tabs n ++ fields e)) ++ rest)
      × (column (length e.regexp) (tabs n) ≡ bar)
      × AreRows bar entries rest)

-- The heading, with its bar at the same column, a rule, the rows and an empty line.
pub record IsTable (entries : List HarddriveEntry) (text : Bytes) : Type 0 where
  pub bar : ℕ
  pub gap : ℕ
  pub rows : Bytes
  pub is_text :
      text
      ≡ codes "\nRegexp"
        ++ (tabs gap
            ++ (codes "| Value | Description\n------"
                ++ (replicate bar b'-'
                    ++ (codes "---------------------\n" ++ (rows ++ (b'\n' ∷ []))))))
  pub heading : column (length (codes "Regexp")) (tabs gap) ≡ bar
  pub are_rows : AreRows bar entries rows

table_rows-AreRows :
    (before entries : List HarddriveEntry)
    → AreRows
        (8 * length (table_tabs (before ++ entries)))
        entries
        (table_rows (table_tabs (before ++ entries)) entries)
unfolding table_rows table_row
table_rows-AreRows before [] = refl
table_rows-AreRows before (e ∷ entries) =
    let all : List HarddriveEntry = before ++ e ∷ entries in
    let (n, q) = drop-table_tabs before entries e in
    let bars = column_bars before entries e in
    let rest : AreRows (8 * length (table_tabs all)) entries (table_rows (table_tabs all) entries) =
      subst (λ l. AreRows (8 * length (table_tabs l)) entries (table_rows (table_tabs l) entries))
        (append_assoc before (e ∷ []) entries) (table_rows-AreRows (before ++ e ∷ []) entries) in
    (
      n,
      table_rows (table_tabs all) entries,
      (
        ap (λ t. (e.regexp ++ (t ++ fields e)) ++ table_rows (table_tabs all) entries) q,
        ap (column (length e.regexp)) (sym q) ∙ bars.1,
        rest,
      ),
    )

pub display_supported_drives-IsTable :
    (entries : List HarddriveEntry) → IsTable entries (display_supported_drives entries)
unfolding display_supported_drives table_tabs table_dashes
display_supported_drives-IsTable entries =
    let m : ℕ = max_length 0 entries / 8 in
    let size : length {A = ℕ} (replicate (m + 1) b'\t') ≡ m + 1 =
      length-replicate {A = ℕ} (m + 1) b'\t' in
    let one : m + 1 ≡ suc m = omega arith in
    let wide : (m + 1) * 8 ≡ 8 * length {A = ℕ} (replicate (m + 1) b'\t') = omega (arith, size) in
    record {
      bar = 8 * length (table_tabs entries);
      gap = m;
      rows = table_rows (table_tabs entries) entries;
      is_text = rw (wide, one) refl;
      heading = column_tabs m 6 ∙ omega (arith, size);
      are_rows = table_rows-AreRows [] entries;
    }
