-- ===== src/Units/Scales.antt =====
-- The shown value and the shown scale name the measured temperature.
use hddtemp.Prelude.{ℕ, ◌+◌, ◌*◌, ◌<◌, some, ◌==◌, if◌then◌else◌, ◌≡◌, ◌⊎◌, inl, inr, arith, refl}
use hddtemp.Prelude.Int.{ℤ, pos, negsuc, pos_part, neg_part}
use hddtemp.Db.{HarddriveEntry}
use hddtemp.Device.{Disk}
use hddtemp.Units.{
  Scale, default_unit, celsius, fahrenheit, f_to_c, c_to_f, entry_value, value_to_unit, get_unit,
}

-- A ninth of a degree Celsius is a fifth of a degree Fahrenheit: the ninths above and below -160/9
-- degrees Celsius, which is 0 degrees Fahrenheit.
abbrev pub above : ℕ → ℤ → ℕ
above unit v = if unit == b'F' then 5 * pos_part v else 9 * pos_part v + 160

abbrev pub below : ℕ → ℤ → ℕ
below unit v = if unit == b'F' then 5 * neg_part v else 9 * neg_part v

-- A degree of the scale in ninths of a degree Celsius.
abbrev pub degree : ℕ → ℕ
degree unit = if unit == b'F' then 5 else 9

-- The value `w` on the scale `u` is less than a degree of `u` from the value `v` on the scale `t`.
abbrev pub IsNear : ℕ → ℤ → ℕ → ℤ → Type 0
IsNear u w t v =
    (above u w + below t v < above t v + below u w + degree u)
    × (above t v + below u w < above u w + below t v + degree u)

f_to_c-IsNear : (v : ℤ) → IsNear b'C' (f_to_c v) b'F' v
unfolding f_to_c
f_to_c-IsNear (pos n) = ground arith
f_to_c-IsNear (negsuc n) = ground arith

c_to_f-IsNear : (v : ℤ) → IsNear b'F' (c_to_f v) b'C' v
unfolding c_to_f
c_to_f-IsNear (pos n) = ground arith
c_to_f-IsNear (negsuc n) = ground arith

same-IsNear : (t : ℕ) (v : ℤ) → IsNear t v t v
same-IsNear t v = ground arith

-- For a disk whose entry is on one of the two scales, and whichever scale is asked for,
-- `value_to_unit` and `get_unit` both give a result, and the value on that scale is less than one of
-- its degrees from the temperature of the disk on the entry's scale.
pub value_to_unit-IsNear :
    (scale : Scale) (dsk : Disk) (e : HarddriveEntry)
    → dsk.db_entry ≡ some e
    → (e.unit ≡ b'C') ⊎ (e.unit ≡ b'F')
    → (w : ℤ) × (u : ℕ) × (value_to_unit scale dsk ≡ some w)
      × (get_unit scale dsk ≡ some u)
      × IsNear u w e.unit dsk.value
unfolding value_to_unit get_unit entry_value
value_to_unit-IsNear default_unit dsk e h _ =
    (dsk.value, e.unit, refl, rw h refl, same-IsNear e.unit dsk.value)
value_to_unit-IsNear celsius dsk e h (inl c) =
    (dsk.value, b'C', rw (h, c) refl, refl, rw c (same-IsNear b'C' dsk.value))
value_to_unit-IsNear celsius dsk e h (inr f) =
    (f_to_c dsk.value, b'C', rw (h, f) refl, refl, rw f (f_to_c-IsNear dsk.value))
value_to_unit-IsNear fahrenheit dsk e h (inl c) =
    (c_to_f dsk.value, b'F', rw (h, c) refl, refl, rw c (c_to_f-IsNear dsk.value))
value_to_unit-IsNear fahrenheit dsk e h (inr f) =
    (dsk.value, b'F', rw (h, f) refl, refl, rw f (same-IsNear b'F' dsk.value))
