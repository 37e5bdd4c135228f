-- ===== src/Db/Lookup.antt =====
-- `is_a_supported_drive` and `display_supported_drives` of src/db.c.
pub mod Table
pub mod Rows
pub mod First
use hddtemp.Prelude.{
  ℕ, zero, suc, ◌+◌, ◌*◌, ◌/◌, Bool, true, false, Option, none, some, List, [], ◌∷◌, ◌++◌, ◌≡◌,
  refl, ap, ltb, if◌then◌else◌, Bytes, codes, length, drop, replicate, leb, ◌-◌,
}
use hddtemp.Prelude.Int.{ℤ, pos, negsuc}
use hddtemp.Printf.{show_int, pad_left}
use hddtemp.Db.{HarddriveEntry}

-- How a call of `is_a_supported_drive` ends.
pub data Lookup : Type 0 where
  found : HarddriveEntry → Lookup
  unsupported : Lookup
  -- exit(-2): the regular expression of an entry does not compile
  bad_regexp : Lookup

-- The POSIX regular expressions: `regcomp` fails, or gives what `regexec` matches a text with.
module _ {R : Type 0} (regcomp : Bytes → Option R) (regexec : R → Bytes → Bool) where
  search_drive : Bytes → List HarddriveEntry → Lookup
  search_drive model [] = unsupported
  search_drive model (p ∷ entries) =
      let rest = search_drive model entries in
      elim (regcomp p.regexp) [
        | none ↦ bad_regexp
        | some preg ↦ if regexec preg model then found p else rest
      ]

  -- The argument is `none` for a model that is NULL.
  unfoldable pub is_a_supported_drive : Option Bytes → List HarddriveEntry → Lookup
  unfolding search_drive
  is_a_supported_drive none entries = unsupported
  is_a_supported_drive (some model) entries = search_drive model entries

  -- An entry that the search passes over.
  abbrev pub PassesOver : Bytes → HarddriveEntry → Type 0
  PassesOver model p = (preg : R) × (regcomp p.regexp ≡ some preg) × (regexec preg model ≡ false)

  abbrev pub AllPassOver : Bytes → List HarddriveEntry → Type 0
  AllPassOver model [] = Unit {0}
  AllPassOver model (p ∷ entries) = PassesOver model p × AllPassOver model entries

  -- `e` is the first entry that matches.
  pub record FirstMatch (model : Bytes) (entries : List HarddriveEntry) (e : HarddriveEntry)
      : Type 0 where
    pub before : List HarddriveEntry
    pub after : List HarddriveEntry
    pub preg : R
    pub splits : entries ≡ before ++ e ∷ after
    pub passed : AllPassOver model before
    pub compiles : regcomp e.regexp ≡ some preg
    pub matches : regexec preg model ≡ true

-- `short int` from its 16-bit pattern.
abbrev pub short_value : ℕ → ℤ
short_value n = if ltb n 32768 then pos n else negsuc (65535 - n)

-- `if(len > max) max = len;`
abbrev pub longer : ℕ → HarddriveEntry → ℕ
longer max p = if ltb max (length p.regexp) then length p.regexp else max

-- The longest regexp of the list.
max_length : ℕ → List HarddriveEntry → ℕ
max_length max [] = max
max_length max (p ∷ entries) = max_length (longer max p) entries

-- One line of the table; `tabs` is the string that the source builds.
unfoldable pub table_row : Bytes → HarddriveEntry → Bytes
table_row tabs p =
    p.regexp
    ++ (drop (length p.regexp / 8) tabs
        ++ (codes "| "
            ++ (pad_left 5 (show_int (short_value p.attribute_id))
                ++ (codes " | " ++ (p.description ++ (b'\n' ∷ []))))))

table_rows : Bytes → List HarddriveEntry → Bytes
table_rows tabs [] = []
table_rows tabs (p ∷ entries) = table_row tabs p ++ table_rows tabs entries

-- `tabs`, and its length: one tab for each eight columns of the longest regexp, and one more.
unfoldable pub table_tabs : List HarddriveEntry → Bytes
unfolding max_length
table_tabs entries = replicate (max_length 0 entries / 8 + 1) b'\t'

table_dashes : List HarddriveEntry → Bytes
unfolding max_length
table_dashes entries = replicate ((max_length 0 entries / 8 + 1) * 8) b'-'

-- What `display_supported_drives` prints, with the texts not translated.
unfoldable pub display_supported_drives : List HarddriveEntry → Bytes
unfolding table_row table_rows table_tabs table_dashes
display_supported_drives entries =
    codes "\nRegexp"
    ++ (table_tabs entries
        ++ (codes "| Value | Description\n------"
            ++ (table_dashes entries
                ++ (codes "---------------------\n"
                    ++ (table_rows (table_tabs entries) entries ++ (b'\n' ∷ []))))))
