-- ===== src/Units.antt =====
-- src/hddtemp.h and src/hddtemp.c: the two scales. `F_to_C` and `C_to_F` compute with doubles; here they
-- are the exact quotients (v - 32) / 1.8 and v * 1.8 + 32, truncated. (A quotient that is not whole is
-- at least 1/9 from a whole one, and the double nearest a whole one is that whole number.)
pub mod Scales
use hddtemp.Prelude.{ℕ, ◌+◌, ◌*◌, Option, none, some, ◌==◌, if◌then◌else◌}
use hddtemp.Prelude.Int.{ℤ, pos_part, neg_part, sub_ℕ, tdiv}
use hddtemp.Db.{HarddriveEntry}
use hddtemp.Device.{Disk}

-- `static enum { DEFAULT, CELSIUS, FAHRENHEIT } unit`
pub data Scale : Type 0 where
  default_unit celsius fahrenheit : Scale

unfoldable pub f_to_c : ℤ → ℤ
f_to_c v = tdiv (sub_ℕ (5 * pos_part v) (5 * neg_part v + 160)) 9

unfoldable pub c_to_f : ℤ → ℤ
c_to_f v = tdiv (sub_ℕ (9 * pos_part v + 160) (9 * neg_part v)) 5

unfoldable pub entry_value : Scale → HarddriveEntry → ℤ → ℤ
unfolding f_to_c c_to_f
entry_value default_unit e value = value
entry_value celsius e value = if e.unit == b'F' then f_to_c value else value
entry_value fahrenheit e value = if e.unit == b'C' then c_to_f value else value

-- `none`: the entry is read through NULL.
unfoldable pub value_to_unit : Scale → Disk → Option ℤ
unfolding entry_value
value_to_unit default_unit dsk = some dsk.value
value_to_unit celsius dsk = elim dsk.db_entry [
  | none ↦ none
  | some e ↦ some (entry_value celsius e dsk.value)
]
value_to_unit fahrenheit dsk = elim dsk.db_entry [
  | none ↦ none
  | some e ↦ some (entry_value fahrenheit e dsk.value)
]

unfoldable pub get_unit : Scale → Disk → Option ℕ
get_unit celsius dsk = some b'C'
get_unit fahrenheit dsk = some b'F'
get_unit default_unit dsk = elim dsk.db_entry [ none ↦ none | some e ↦ some e.unit ]
