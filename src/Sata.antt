-- ===== src/Sata.antt =====
-- src/sata.c: the drives on the SATA bus.
pub mod Outcome
pub mod Heard
pub mod Small
pub mod Silent
pub mod Kept
use hddtemp.Prelude.{
  ℕ, ◌+◌, Bool, true, false, not, ◌&&◌, Option, none, some, [], ◌∷◌, ◌++◌, ◌==◌, if◌then◌else◌,
  Bytes, drop, get_or, codes,
}
use hddtemp.Prelude.Int.{is_minus_one}
use hddtemp.Db.{HarddriveEntry}
use hddtemp.Device.{
  Disk, GetTemp, unknown, known, no_sensor, drive_sleep, Flags, scsi_get_bus_number, Reply, Kernel,
  Dev, ◌>>=◌, ◌>>◌, pure, crash, print, ioctl, close_disk, strdup, sleeps,
}
use hddtemp.AtaCmds.{win_identify, ata_get_powermode}
use hddtemp.Ata.{new_value, enable_failure, read_failure}
use hddtemp.FixString.{sata_fixstring}
use hddtemp.ScsiCmds.{scsi_inquiry}
use hddtemp.SataCmds.{Cmd, sata_pass_thru, sata_enable_smart, sata_get_smart_values}
use hddtemp.Smart.{swap_words, sata_search_temperature}

abbrev pub identify_cmd : Cmd
identify_cmd = record { c₀ = win_identify; c₁ = 0; c₂ = 0; c₃ = 1 }

-- `!strncmp(buf, "ATA ", 4)`
unfoldable pub is_ata : Bytes → Bool
is_ata buf =
    get_or buf 0 0 == b'A'
    && get_or buf 1 0 == b'T'
    && get_or buf 2 0 == b'A'
    && get_or buf 3 0 == b' '

module _ {W : Type 0} (k : Kernel W) where
  unfoldable pub sata_probe : Option ℕ → Dev W Bool
  unfolding is_ata
  sata_probe device = do
    bus ← ioctl k (scsi_get_bus_number device)
    if not (bus.ret == 0) then pure false else do
      r ← scsi_inquiry k device
      if not (r.0 == 0)
          then pure false
          else if not (is_ata (drop 8 r.1))
          then pure false
          else do p ← sata_pass_thru k device identify_cmd; pure (p.0 == 0)

  unfoldable pub sata_model : Option ℕ → Dev W Bytes
  sata_model none = pure (codes "unknown")
  sata_model (some fd) = do
    r ← sata_pass_thru k (some fd) identify_cmd
    if not (r.0 == 0) then pure (codes "unknown") else strdup (sata_fixstring (drop 54 r.1) 24)

  -- `sata_get_temperature` from the reading of the values on.
  sata_read_value : Flags → HarddriveEntry → Disk → Dev W (GetTemp × Disk)
  sata_read_value flags e dsk = do
    smart ← sata_get_smart_values k dsk.fd
    if not (smart.0 == 0) then read_failure k dsk else do
      let values = swap_words 256 smart.1
      let found = sata_search_temperature flags.debug values e.attribute_id
      print found.1
      let value = new_value dsk.value values found.0
      pure (if is_minus_one value then unknown else known, record dsk { value = value })

  sata_with_entry : Flags → HarddriveEntry → Disk → Dev W (GetTemp × Disk)
  unfolding sata_read_value
  sata_with_entry flags e dsk =
      if e.attribute_id == 0 then (do dsk' ← close_disk k dsk; pure (no_sensor, dsk')) else (do
        mode ← ata_get_powermode k dsk.fd
        if sleeps mode && not flags.wakeup then pure (drive_sleep, dsk) else do
          ret ← sata_enable_smart k dsk.fd
          if not (ret == 0) then enable_failure k dsk else sata_read_value flags e dsk)

  from_entry : Flags → Disk → Option HarddriveEntry → Dev W (GetTemp × Disk)
  unfolding sata_with_entry
  from_entry flags dsk none = crash
  from_entry flags dsk (some e) = sata_with_entry flags e dsk

  unfoldable pub sata_get_temperature : Flags → Disk → Dev W (GetTemp × Disk)
  unfolding from_entry
  sata_get_temperature flags dsk = from_entry flags dsk dsk.db_entry
