-- ===== src/Ata/Heard.antt =====
-- src/ata.c: the temperature that `ata_get_temperature` gives is in the drive's reply.
use mathlib.Core.Path.{subst}
use hddtemp.Prelude.{
  ℕ, Bool, Bool-cases, inl, inr, true, false, not, ◌&&◌, Option, none, some, ◌∷◌, ◌==◌, ◌≡◌, refl,
  sym, ap, ◌∙◌, if◌then◌else◌, Bytes, take, drop, length, replicate, length-take, length-drop,
  arith,
}
use hddtemp.Prelude.Int.{ℤ, is_minus_one}
use hddtemp.Db.{HarddriveEntry}
use hddtemp.Device.{
  Disk, unknown, known, not_applicable, gettemp_error, no_sensor, Flags, Request, hdio_drive_cmd,
  Reply, Kernel, sleeps, ◌>>=◌,
}
use hddtemp.Device.Ensures.{Ensures, Ensures-bind, Ensures-if, Ensures-pure}
use hddtemp.Device.Kept.{Any, Runs-get_errno}
use hddtemp.Device.Silent.{Ensures-from}
use hddtemp.Device.Heard.{
  HasSizes, heard, Newest, Newest-map, print-world, IfRead, or_else, LeavesTold, close-Tells,
}
use hddtemp.Smart.{ata_search_temperature, swap_words}
use hddtemp.Smart.Raw.{IsBytes, raw_value, field_value, search_temperature-raw_value}
use hddtemp.Smart.Small.{HasBytes, IsBytes-drop, IsBytes-take}
use hddtemp.AtaCmds.{eio, ata_get_smart_values}
use hddtemp.Ata.{
  new_value, enable_failure, read_failure, ata_read_value, ata_awake, ata_with_entry, from_entry,
  ata_get_temperature,
}
use hddtemp.Ata.Kept.{ata_get_packet-Runs, ata_enable_smart-Runs, ata_get_powermode-Runs}

-- The value is what the table holds for the attribute of the entry, or else the one before.
abbrev pub IsFromTable : Disk → HarddriveEntry → Bytes → ℤ → Type 0
IsFromTable dsk e table value = value ≡ or_else dsk.value (raw_value table e.attribute_id 30 2)

-- The command READ VALUES.
abbrev read_values : Option ℕ → Request
read_values fd = hdio_drive_cmd fd (0xb0 ∷ 0 ∷ 0xd0 ∷ 1 ∷ replicate 512 0)

-- The request is the command READ VALUES, it succeeded, and the value is from the table behind the
-- four bytes of the command.
abbrev pub IsFromAta : Disk → HarddriveEntry → Disk → Request → Reply → Type 0
IsFromAta dsk e dsk' req r =
    (req ≡ read_values dsk.fd)
    × (r.ret ≡ 0)
    × IsFromTable dsk e (take 512 (drop 4 r.content)) dsk'.value

abbrev pub IsTable : Bytes → Type 0
IsTable table = (length table ≡ 512) × IsBytes table

pub new_value-field_value :
    (value : ℤ) (values : Bytes) (found : Option ℕ)
    → new_value value values found ≡ or_else value (field_value values found)
new_value-field_value value values none = refl
new_value-field_value value values (some n) = refl

-- What was read stays the newest while the value is taken from it.
pub IfRead-value : {C : Type 0} (b : Bool) → C → IfRead C (if b then unknown else known)
IfRead-value true c = c
IfRead-value false c = c

pub is_zero : (m n : ℕ) → m ≡ n → not (n == 0) ≡ false → m ≡ 0
is_zero m n e z = ground arith

ata_value :
    (flags : Flags) (dsk : Disk) (e : HarddriveEntry) (table : Bytes)
    → flags.debug ≡ false
    → IsTable table
    → IsFromTable dsk e table (
        new_value dsk.value
          (swap_words 256 table)
          (ata_search_temperature flags.debug (swap_words 256 table) e.attribute_id).0)
ata_value flags dsk e table d t = rw d (
    new_value-field_value dsk.value (swap_words 256 table)
      (ata_search_temperature false (swap_words 256 table) e.attribute_id).0
    ∙ ap (or_else dsk.value) (search_temperature-raw_value table e.attribute_id t.0 t.1).0)

module _ {W : Type 0} (k : Kernel W) where
  pub enable_failure-Tells :
      (P : Disk → Request → Reply → Type 0) (dsk : Disk)
      → LeavesTold P (enable_failure (heard k) dsk)
  unfolding enable_failure
  enable_failure-Tells P dsk = Ensures-bind Runs-get_errno λ errno.
      close-Tells P k (if errno == eio then not_applicable else gettemp_error) _
        (elim (Bool-cases (errno == eio)) [ inl q ↦ rw q tt | inr q ↦ rw q tt ])

  pub read_failure-Tells :
      (P : Disk → Request → Reply → Type 0) (dsk : Disk) → LeavesTold P (read_failure (heard k) dsk)
  unfolding read_failure
  read_failure-Tells P dsk = Ensures-bind Runs-get_errno λ errno. close-Tells P k _ _ tt

  module _ (bytes : HasBytes k) (sizes : HasSizes k) (flags : Flags) (d : flags.debug ≡ false)
      (dsk : Disk) (e : HarddriveEntry) where
    abbrev table_value : Bytes → ℤ
    table_value table =
        new_value dsk.value (swap_words 256 table)
          (ata_search_temperature flags.debug (swap_words 256 table) e.attribute_id).0

    -- The newest reply is the one with this table.
    abbrev ReadTable : ℕ × Bytes → Request → Reply → Type 0
    ReadTable smart q p =
        (q ≡ read_values dsk.fd) × (p.ret ≡ smart.0) × (take 512 (drop 4 p.content) ≡ smart.1)

    reply-IsTable : (w : W) → IsTable (take 512 (drop 4 (k.ioctl (read_values dsk.fd) w).0.content))
    reply-IsTable w =
        let content = (k.ioctl (read_values dsk.fd) w).0.content in
        (
          omega (
            arith,
            length-take 512 (drop 4 content),
            length-drop 4 content,
            sizes.content (read_values dsk.fd) w,
          ),
          IsBytes-take 512 _ (IsBytes-drop 4 content (bytes _ w)),
        )

    ata_get_smart_values-ReadTable :
        Ensures Any
          (ata_get_smart_values (heard k) dsk.fd)
          (λ smart s. IsTable smart.1 × Newest (ReadTable smart) s.world.1)
    unfolding ata_get_smart_values ◌>>=◌
    ata_get_smart_values-ReadTable = record {
      at = λ s q. (reply-IsTable s.world.0, (refl, refl, refl));
    }

    told :
        (smart : ℕ × Bytes)
        → not (smart.0 == 0) ≡ false
        → IsTable smart.1
        → (q : Request) (p : Reply) → ReadTable smart q p
        → IsFromAta dsk e (record dsk { value = table_value smart.1 }) q p
    told smart z t q p h = (
      h.0,
      is_zero p.ret smart.0 h.1 z,
      subst (λ m. IsFromTable dsk e m (table_value smart.1)) (sym h.2)
          (ata_value flags dsk e smart.1 d t),
    )

    ata_read_value-Told : LeavesTold (IsFromAta dsk e) (ata_read_value (heard k) flags e dsk)
    unfolding ata_read_value
    ata_read_value-Told = Ensures-bind ata_get_smart_values-ReadTable λ smart.
        Ensures-if (not (smart.0 == 0)) (λ _. Ensures-from (read_failure-Tells _ dsk))
          (λ z.
            Ensures-bind
              (print-world (λ w. IsTable smart.1 × Newest (ReadTable smart) w.1)
                (ata_search_temperature flags.debug (swap_words 256 smart.1) e.attribute_id).1)
              λ u. Ensures-pure _ (λ s q.
                IfRead-value (is_minus_one (table_value smart.1))
                  (Newest-map s.world.1 (told smart z q.0) q.1)))

    ata_awake-Told : LeavesTold (IsFromAta dsk e) (ata_awake (heard k) flags e dsk)
    unfolding ata_awake
    ata_awake-Told = Ensures-bind (ata_get_powermode-Runs (heard k) dsk.fd) λ mode.
        Ensures-if (sleeps mode && not flags.wakeup) (λ _. Ensures-pure _ (λ s q. tt))
          (λ _. Ensures-bind (ata_enable_smart-Runs (heard k) dsk.fd) λ ret.
            Ensures-if (not (ret == 0)) (λ _. enable_failure-Tells _ dsk)
              (λ _. ata_read_value-Told))

    ata_with_entry-Told : LeavesTold (IsFromAta dsk e) (ata_with_entry (heard k) flags e dsk)
    unfolding ata_with_entry
    ata_with_entry-Told =
        Ensures-if (e.attribute_id == 0) (λ _. close-Tells _ k no_sensor dsk tt)
          (λ _.
            Ensures-bind (ata_get_packet-Runs (heard k) dsk.fd)
              λ packet. Ensures-if packet (λ _. Ensures-pure _ (λ s q. tt)) (λ _. ata_awake-Told))

    pub ata_get_temperature-Told :
        dsk.db_entry ≡ some e
        → LeavesTold (IsFromAta dsk e) (ata_get_temperature (heard k) flags dsk)
    unfolding ata_get_temperature from_entry
    ata_get_temperature-Told q =
        subst (λ o. LeavesTold (IsFromAta dsk e) (from_entry (heard k) flags dsk o)) (sym q)
          ata_with_entry-Told
