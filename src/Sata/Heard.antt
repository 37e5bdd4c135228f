-- ===== src/Sata/Heard.antt =====
-- src/sata.c: the temperature that `sata_get_temperature` gives is in the drive's reply.
use mathlib.Core.Path.{subst}
use hddtemp.Prelude.{
  ℕ, false, not, ◌&&◌, Option, some, [], ◌∷◌, ◌==◌, ◌≡◌, refl, sym, ap, ◌∙◌, if◌then◌else◌, Bytes,
  get_or, arith,
}
use hddtemp.Prelude.Int.{ℤ, negsuc, is_minus_one}
use hddtemp.Db.{HarddriveEntry}
use hddtemp.Device.{Disk, no_sensor, Flags, Request, sg_io, Reply, Kernel, ◌>>=◌, sleeps}
use hddtemp.Device.Ensures.{Ensures, Ensures-bind, Ensures-if, Ensures-pure}
use hddtemp.Device.Kept.{Any}
use hddtemp.Device.Silent.{Ensures-from}
use hddtemp.Device.Heard.{
  HasSizes, heard, Newest, Newest-map, print-world, or_else, LeavesTold, close-Tells,
}
use hddtemp.Smart.{sata_search_temperature, swap_words}
use hddtemp.Smart.Raw.{search_temperature-raw_value}
use hddtemp.Smart.Small.{HasBytes}
use hddtemp.ScsiCmds.{scsi_sg_io}
use hddtemp.SataCmds.{sata_pass_thru, pass_thru_cdb, sata_get_smart_values}
use hddtemp.Ata.{new_value}
use hddtemp.Ata.Heard.{
  IsTable, IsFromTable, IfRead-value, new_value-field_value, enable_failure-Tells,
  read_failure-Tells,
}
use hddtemp.Sata.{sata_read_value, sata_with_entry, from_entry, sata_get_temperature}
use hddtemp.Ata.Kept.{ata_get_powermode-Runs}
use hddtemp.Sata.Kept.{sata_enable_smart-Runs}

-- The command READ VALUES behind ATA PASS-THROUGH (16): a read of one sector, from the registers of
-- S.M.A.R.T.
abbrev pass_read_values : Option ℕ → Request
pass_read_values fd = sg_io fd (record {
  interface_id = b'S';
  cmdp = 0x85 ∷ 8 ∷ 0x2e ∷ 0 ∷ 0xd0 ∷ 0 ∷ 1 ∷ 0 ∷ 0 ∷ 0 ∷ 0x4f ∷ 0 ∷ 0xc2 ∷ 0 ∷ 0xb0 ∷ 0 ∷ [];
  dxfer_len = 512;
  mx_sb_len = 32;
  dxfer_direction = negsuc 2;
  timeout = 3000;
})

-- The request is the command READ VALUES, it succeeded with the sense of a SATA drive, and the value
-- is from the table.
abbrev pub IsFromSata : Disk → HarddriveEntry → Disk → Request → Reply → Type 0
IsFromSata dsk e dsk' req r =
    (req ≡ pass_read_values dsk.fd)
    × (r.ret ≡ 0)
    × (get_or r.sense 0 0 ≡ 0x72)
    × IsFromTable dsk e r.content dsk'.value

sata_value :
    (flags : Flags) (dsk : Disk) (e : HarddriveEntry) (table : Bytes)
    → flags.debug ≡ false
    → IsTable table
    → IsFromTable dsk e table (
        new_value dsk.value
          (swap_words 256 table)
          (sata_search_temperature flags.debug (swap_words 256 table) e.attribute_id).0)
sata_value flags dsk e table d t = rw d (
    new_value-field_value dsk.value (swap_words 256 table)
      (sata_search_temperature false (swap_words 256 table) e.attribute_id).0
    ∙ ap (or_else dsk.value) (search_temperature-raw_value table e.attribute_id t.0 t.1).1)

-- What `sata_pass_thru` makes of the result.
abbrev pub passed : ℕ → ℕ → ℕ
passed sense ret = if not (sense == 0x72) then 1 else ret

pub passed-zero :
    (sense ret n : ℕ) → n ≡ passed sense ret → not (n == 0) ≡ false → (ret ≡ 0) × (sense ≡ 0x72)
passed-zero sense ret n e z = ground arith

module _ {W : Type 0} (k : Kernel W) (bytes : HasBytes k) (sizes : HasSizes k) (flags : Flags)
    (d : flags.debug ≡ false) (dsk : Disk) (e : HarddriveEntry) where
  abbrev table_value : Bytes → ℤ
  table_value table =
      new_value dsk.value (swap_words 256 table)
        (sata_search_temperature flags.debug (swap_words 256 table) e.attribute_id).0

  -- The newest reply is the one with this table.
  abbrev ReadTable : ℕ × Bytes → Request → Reply → Type 0
  ReadTable smart q p =
      (q ≡ pass_read_values dsk.fd)
      × (smart.0 ≡ passed (get_or p.sense 0 0) p.ret)
      × (p.content ≡ smart.1)

  sata_get_smart_values-ReadTable :
      Ensures Any
        (sata_get_smart_values (heard k) dsk.fd)
        (λ smart s. IsTable smart.1 × Newest (ReadTable smart) s.world.1)
  unfolding sata_get_smart_values sata_pass_thru pass_thru_cdb scsi_sg_io ◌>>=◌
  sata_get_smart_values-ReadTable = record {
    at = λ s q. (
      (
        sizes.content (pass_read_values dsk.fd) s.world.0,
        bytes (pass_read_values dsk.fd) s.world.0,
      ),
      (refl, refl, refl),
    );
  }

  told :
      (smart : ℕ × Bytes)
      → not (smart.0 == 0) ≡ false
      → IsTable smart.1
      → (q : Request) (p : Reply) → ReadTable smart q p
      → IsFromSata dsk e (record dsk { value = table_value smart.1 }) q p
  told smart z t q p h =
      let (ret, sense) = passed-zero (get_or p.sense 0 0) p.ret smart.0 h.1 z in
      (
        h.0,
        ret,
        sense,
        subst (λ m. IsFromTable dsk e m (table_value smart.1)) (sym h.2)
            (sata_value flags dsk e smart.1 d t),
      )

  sata_read_value-Told : LeavesTold (IsFromSata dsk e) (sata_read_value (heard k) flags e dsk)
  unfolding sata_read_value
  sata_read_value-Told = Ensures-bind sata_get_smart_values-ReadTable λ smart.
      Ensures-if (not (smart.0 == 0)) (λ _. Ensures-from (read_failure-Tells k _ dsk))
        (λ z.
          Ensures-bind
            (print-world (λ w. IsTable smart.1 × Newest (ReadTable smart) w.1)
              (sata_search_temperature flags.debug (swap_words 256 smart.1) e.attribute_id).1)
            λ u. Ensures-pure _ (λ s q.
              IfRead-value (is_minus_one (table_value smart.1))
                (Newest-map s.world.1 (told smart z q.0) q.1)))

  sata_with_entry-Told : LeavesTold (IsFromSata dsk e) (sata_with_entry (heard k) flags e dsk)
  unfolding sata_with_entry
  sata_with_entry-Told =
      Ensures-if (e.attribute_id == 0) (λ _. close-Tells _ k no_sensor dsk tt)
        (λ _. Ensures-bind (ata_get_powermode-Runs (heard k) dsk.fd) λ mode.
          Ensures-if (sleeps mode && not flags.wakeup) (λ _. Ensures-pure _ (λ s q. tt))
            (λ _. Ensures-bind (sata_enable_smart-Runs (heard k) dsk.fd) λ ret.
              Ensures-if (not (ret == 0)) (λ _. enable_failure-Tells k _ dsk)
                (λ _. sata_read_value-Told)))

  pub sata_get_temperature-Told :
      dsk.db_entry ≡ some e
      → LeavesTold (IsFromSata dsk e) (sata_get_temperature (heard k) flags dsk)
  unfolding sata_get_temperature from_entry
  sata_get_temperature-Told q =
      subst (λ o. LeavesTold (IsFromSata dsk e) (from_entry (heard k) flags dsk o)) (sym q)
        sata_with_entry-Told
