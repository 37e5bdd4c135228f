-- ===== src/Tests/Database.antt =====
-- src/db.c on a small database.
use hddtemp.Prelude.{
  ℕ, ◌<◌, Bool, true, false, Option, some, [], ◌∷◌, ◌++◌, ◌≡◌, ◌≢◌, ◌↔◌, refl, inl, Bytes, length,
  take, drop, if◌then◌else◌, ◌==◌, ◌/◌, ◌*◌, replicate, arith,
}
use hddtemp.Db.{HarddriveEntry}
use hddtemp.Db.Line.{entry, no_entry, overrun, parse_db_line}
use hddtemp.Db.Line.RoundTrip.{
  nil, plain, Fields, IsEntryLine, line_bytes, parse_db_line-line_bytes, parse_db_line-comment,
}
use hddtemp.Db.Load.{load_database}
use hddtemp.Db.Load.Lines.{unlines}
use hddtemp.Db.Load.Spec.{load_lines, IsLoadable}
use hddtemp.Db.Load.Total.{load_database-load_lines}
use hddtemp.Db.Lookup.{found, is_a_supported_drive, FirstMatch, table_tabs}
use hddtemp.Db.Lookup.Table.{column, column_bars}
use hddtemp.Db.Lookup.First.{is_a_supported_drive_iff}

-- `"AB" 194 C "x"`
abbrev fields : Fields
fields = record {
  b₀ = [];
  regexp = b'A' ∷ b'B' ∷ [];
  b₁ = b' ' ∷ [];
  digits = b'1' ∷ b'9' ∷ b'4' ∷ [];
  b₂ = b' ' ∷ [];
  unit = b'C';
  b₃ = b' ' ∷ [];
  description = b'x' ∷ [];
}

abbrev pub line : Bytes
line = line_bytes b'"' fields []

abbrev ab_entry : HarddriveEntry
ab_entry = record {
  regexp = b'A' ∷ b'B' ∷ [];
  attribute_id = 194;
  description = b'x' ∷ [];
  unit = b'C';
}

fields-IsEntryLine : IsEntryLine fields
fields-IsEntryLine = record {
  b₀_blanks = tt;
  regexp_quoted = plain refl (plain refl nil);
  b₁_blanks = (refl, tt);
  digits_ne_nil = λ e. cc;
  digits_only = ground arith;
  b₂_ne_nil = λ e. cc;
  b₂_blanks = (refl, tt);
  unit_known = inl refl;
  b₃_ne_nil = λ e. cc;
  b₃_blanks = (refl, tt);
  description_quoted = plain refl nil;
}

line_entry : parse_db_line (line ++ 0 ∷ []) ≡ entry ab_entry (line_bytes 0 fields (0 ∷ []))
line_entry = parse_db_line-line_bytes fields (0 ∷ []) fields-IsEntryLine

parse_db_line-line_bytes_example :
    parse_db_line (line ++ 0 ∷ []) ≡ entry ab_entry (line_bytes 0 fields (0 ∷ []))
parse_db_line-line_bytes_example = parse_db_line-line_bytes fields (0 ∷ []) fields-IsEntryLine

comment-within : parse_db_line (b'#' ∷ 0 ∷ []) ≢ overrun
comment-within e =
    let q : parse_db_line (b'#' ∷ 0 ∷ []) ≡ no_entry =
      parse_db_line-comment [] b'#' (0 ∷ []) tt (inl refl) in
    cc

-- A file is the bytes that are still to be read.
abbrev read_bytes : ℕ → Bytes → Bytes × Bytes
read_bytes n f = (take n f, drop n f)

line-within : parse_db_line (line ++ 0 ∷ []) ≢ overrun
line-within e =
    let q : parse_db_line (line ++ 0 ∷ []) ≡ entry ab_entry (line_bytes 0 fields (0 ∷ [])) =
      line_entry in
    cc

pub lines-IsLoadable : IsLoadable (line ∷ (b'#' ∷ []) ∷ [])
lines-IsLoadable =
    (ground arith, omega arith, line-within, ((refl, tt), omega arith, comment-within, tt))

load_database-load_lines_example :
    load_database read_bytes 40 (replicate 1024 7) (some (unlines (line ∷ (b'#' ∷ []) ∷ []))) []
    ≡ load_lines 0 [] (line ∷ (b'#' ∷ []) ∷ [])
load_database-load_lines_example =
    load_database-load_lines read_bytes (λ f. f)
      (record { gives = λ n f. refl; leaves = λ n f. refl }) 40 (replicate 1024 7)
      (unlines (line ∷ (b'#' ∷ []) ∷ [])) (line ∷ (b'#' ∷ []) ∷ []) refl refl lines-IsLoadable
      (omega arith)

-- An expression that matches the model that it is.
abbrev same_bytes : Bytes → Bytes → Bool
same_bytes [] [] = true
same_bytes [] (c ∷ b) = false
same_bytes (c ∷ a) [] = false
same_bytes (c ∷ a) (d ∷ b) = if c == d then same_bytes a b else false

abbrev itself : Bytes → Option Bytes
itself e = some e

is_a_supported_drive_iff_example :
    (is_a_supported_drive itself same_bytes (some (b'A' ∷ b'B' ∷ [])) (ab_entry ∷ [])
      ≡ found ab_entry)
    ↔ FirstMatch itself same_bytes (b'A' ∷ b'B' ∷ []) (ab_entry ∷ []) ab_entry
is_a_supported_drive_iff_example =
    is_a_supported_drive_iff itself same_bytes (b'A' ∷ b'B' ∷ []) (ab_entry ∷ []) ab_entry

column_bars_example :
    (length ab_entry.regexp / 8 < length (table_tabs (ab_entry ∷ [])))
    × (column
          (length ab_entry.regexp)
          (drop (length ab_entry.regexp / 8) (table_tabs (ab_entry ∷ [])))
        ≡ 8 * length (table_tabs (ab_entry ∷ [])))
column_bars_example = column_bars [] [] ab_entry
