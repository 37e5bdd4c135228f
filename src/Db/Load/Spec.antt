-- ===== src/Db/Load/Spec.antt =====
-- The specification of the loader: the lines one after the other, each parsed by itself.
use hddtemp.Prelude.{ℕ, ◌+◌, ◌<◌, List, [], ◌∷◌, ◌++◌, ◌≢◌, Bytes, length}
use hddtemp.Db.{HarddriveEntry}
use hddtemp.Db.Line.{LineResult, no_entry, syntax_error, entry, overrun, parse_db_line}
use hddtemp.Db.Load.{Loaded, loaded, bad_line, buffer_overrun, out_of_fuel, max_line_len}
use hddtemp.Db.Load.Lines.{HasNoNewline}

-- The line as a string of its own.
abbrev pub parse_alone : Bytes → LineResult
parse_alone line = parse_db_line (line ++ 0 ∷ [])

unfoldable pub load_lines : ℕ → List HarddriveEntry → List Bytes → Loaded
load_lines numline entries [] = loaded entries
load_lines numline entries (line ∷ lines) = elim (parse_alone line) [
  | no_entry ↦ load_lines (numline + 1) entries lines
  | syntax_error ↦ bad_line (numline + 1)
  | entry e mem ↦ load_lines (numline + 1) (entries ++ e ∷ []) lines
  | overrun ↦ buffer_overrun
]

-- The file was read without a step behind the buffer, and to an end.
abbrev pub IsSafeLoad : Loaded → Type 0
IsSafeLoad buffer_overrun = ⊥
IsSafeLoad out_of_fuel = ⊥
IsSafeLoad _ = Unit {0}

-- Lines that fit the loader's buffer, newline included, and in which no string ends behind the line.
abbrev pub IsLoadable : List Bytes → Type 0
IsLoadable [] = Unit {0}
IsLoadable (line ∷ lines) =
    HasNoNewline line
    × (length line < max_line_len)
    × (parse_alone line ≢ overrun)
    × IsLoadable lines
