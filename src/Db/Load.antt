-- ===== src/Db/Load.antt =====
-- `load_database` of src/db.c.
pub mod Lines
pub mod Spec
mod Refine
pub mod Total
use hddtemp.Prelude.{
  ℕ, zero, suc, ◌+◌, ◌-◌, Bool, true, false, Option, none, some, List, [], ◌∷◌, ◌++◌, ◌==◌,
  if◌then◌else◌, Bytes, length, take, drop,
}
use hddtemp.Db.{HarddriveEntry}
use hddtemp.Db.Line.{LineResult, no_entry, syntax_error, entry, overrun, parse_db_line}

-- `MAX_LINE_LEN`
abbrev pub max_line_len : ℕ
max_line_len = 1024

-- `buff`, cut at the pointers `s` and `ee`: the bytes before `s`, those from `s` to `ee`, which have
-- been read and not been parsed, and those behind `ee`.
pub record Buffer : Type 0 where
  pub passed : Bytes
  pub unread : Bytes
  pub junk : Bytes

-- How a call of `load_database` ends.
pub data Loaded : Type 0 where
  loaded : List HarddriveEntry → Loaded
  -- exit(2), "can't open"
  cannot_open : Loaded
  -- exit(2) at a line that `parse_db_line` refuses, with its number
  bad_line : ℕ → Loaded
  -- exit(2), "line exceed 1024 characters"
  line_too_long : Loaded
  -- `parse_db_line` reads behind the end of `buff`
  buffer_overrun : Loaded
  -- the model's fuel is used up
  out_of_fuel : Loaded

unfoldable pub push_byte : ℕ → Option (Bytes × Bytes) → Option (Bytes × Bytes)
push_byte c none = none
push_byte c (some (l, r)) = some (c ∷ l, r)

-- `e = memchr(s, '\n', ee-s)`: the bytes before and behind the newline.
unfoldable pub find_newline : Bytes → Option (Bytes × Bytes)
unfolding push_byte
find_newline [] = none
find_newline (c ∷ m) = if c == b'\n' then some ([], m) else push_byte c (find_newline m)

-- The buffer with `s` behind the `n` bytes of the line and its NUL, where `mem` are the bytes from
-- the start of the line on and `ee` has not moved.
abbrev pub advance : Bytes → Bytes → ℕ → ℕ → Buffer
advance passed mem n unread = record {
  passed = passed ++ take (n + 1) mem;
  unread = take unread (drop (n + 1) mem);
  junk = drop unread (drop (n + 1) mem);
}

-- What the inner loop leaves: the state at its end, or the call's end.
pub data Scanned : Type 0 where
  scanned : Buffer → ℕ → List HarddriveEntry → Scanned
  stop : Loaded → Scanned

-- The inner loop. Each round passes over one newline at least, so that as many rounds as there are
-- unread bytes are enough.
unfoldable pub scan_lines : ℕ → Buffer → ℕ → List HarddriveEntry → Scanned
scan_lines zero b numline entries = scanned b numline entries
scan_lines (suc rounds) b numline entries = elim (find_newline b.unread) [
  | none ↦ scanned b numline entries
  | some (line, after) ↦
      let mem : Bytes = line ++ (0 ∷ (after ++ b.junk)) in
      elim (parse_db_line mem) [
        | no_entry ↦
            scan_lines rounds (advance b.passed mem (length line) (length after)) (numline + 1)
              entries
        | syntax_error ↦ stop (bad_line (numline + 1))
        | entry e mem' ↦
            scan_lines rounds (advance b.passed mem' (length line) (length after)) (numline + 1)
              (entries ++ e ∷ [])
        | overrun ↦ stop buffer_overrun
      ]
]

-- `if(s == buff)`
pub no_line : Buffer → Bool
no_line b = length b.passed == 0

-- `memmove(buff, s, ee-s)`, with `s` back at the start: `length b.unread` bytes are kept, and `p`
-- stands behind them.
unfoldable pub move_down : Buffer → Buffer
move_down b = record {
  passed = [];
  unread = b.unread;
  junk = drop (length b.unread) (b.passed ++ (b.unread ++ b.junk));
}

-- The bytes that `read` stores behind `p`.
unfoldable pub store : Buffer → Bytes → Buffer
store b chunk = record b { unread = b.unread ++ chunk; junk = drop (length chunk) b.junk }

-- A file that is open for reading: `read rest` gives the bytes of one call of `read`, and the file
-- behind it. No bytes stand for the end of the file, or an error.
module _ {F : Type 0} (read : ℕ → F → Bytes × F) where
  -- The outer loop, from a buffer with the pending bytes at its start.
  unfoldable pub read_loop : ℕ → F → Buffer → ℕ → List HarddriveEntry → Loaded
  unfolding scan_lines no_line move_down store
  read_loop zero file b numline entries = out_of_fuel
  read_loop (suc fuel) file b numline entries =
      let (chunk, file') = read (max_line_len - length b.unread) file in
      if length chunk == 0
      then loaded entries
      else (let filled = store b chunk in
          elim (scan_lines (length filled.unread) filled numline entries) [
            | stop l ↦ l
            | scanned b' n' es' ↦ elim (no_line b') [
              | true ↦ line_too_long
              | false ↦ read_loop fuel file' (move_down b') n' es'
            ]
          ])

  -- `load_database`, on what `open` gives. `buff` is not initialised: it holds `garbage`.
  unfoldable pub load_database : ℕ → Bytes → Option F → List HarddriveEntry → Loaded
  unfolding read_loop
  load_database fuel garbage none entries = cannot_open
  load_database fuel garbage (some file) entries =
      read_loop fuel file (record { passed = []; unread = []; junk = garbage }) 0 entries
