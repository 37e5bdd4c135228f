-- ===== src/Ata.antt =====
-- src/ata.c: the drives on the ATA bus.
pub mod Outcome
pub mod Heard
pub mod Small
pub mod Silent
pub mod Kept
use hddtemp.Prelude.{
  ℕ, ◌+◌, Bool, true, false, not, ◌&&◌, ◌||◌, Option, none, some, [], ◌∷◌, ◌++◌, ◌==◌,
  if◌then◌else◌, Bytes, drop, get_or, codes,
}
use hddtemp.Prelude.Int.{ℤ, pos, is_minus_one}
use hddtemp.Db.{HarddriveEntry}
use hddtemp.Device.{
  Disk, GetTemp, gettemp_error, not_applicable, unknown, known, no_sensor, drive_sleep,
  set_errormsg, Flags, PowerMode, pwm_sleeping, pwm_standby, hdio_get_identity, Reply, Kernel, Dev,
  ◌>>=◌, ◌>>◌, pure, crash, get_errno, print, ioctl, close_disk, strdup, sleeps,
}
use hddtemp.AtaCmds.{eio, ata_enable_smart, ata_get_smart_values, ata_get_powermode, ata_get_packet}
use hddtemp.Smart.{swap_words, ata_search_temperature}

-- The field's value, if the search found it.
abbrev pub new_value : ℤ → Bytes → Option ℕ → ℤ
new_value value values none = value
new_value value values (some field) = pos (get_or values (field + 3) 0)

module _ {W : Type 0} (k : Kernel W) where
  -- On -1 the test is true before the call.
  unfoldable pub ata_probe : Option ℕ → Dev W Bool
  ata_probe none = pure false
  ata_probe (some fd) = do r ← ioctl k (hdio_get_identity (some fd)); pure (r.ret == 0)

  unfoldable pub ata_model : Option ℕ → Dev W Bytes
  ata_model none = pure (codes "unknown")
  ata_model (some fd) = do
    r ← ioctl k (hdio_get_identity (some fd))
    if not (r.ret == 0) then pure (codes "unknown") else strdup (drop 54 r.content)

  -- What both drivers do when S.M.A.R.T. cannot be enabled.
  unfoldable pub enable_failure : Disk → Dev W (GetTemp × Disk)
  enable_failure dsk = do
    errno ← get_errno
    let smart = errno == eio
    let text = if smart then codes "S.M.A.R.T. not available" else k.strerror errno
    dsk' ← close_disk k (set_errormsg dsk text)
    pure (if smart then not_applicable else gettemp_error, dsk')

  -- What both drivers do when the values cannot be read.
  unfoldable pub read_failure : Disk → Dev W (GetTemp × Disk)
  read_failure dsk = do
    errno ← get_errno
    dsk' ← close_disk k (set_errormsg dsk (k.strerror errno))
    pure (gettemp_error, dsk')

  -- `ata_get_temperature` from the reading of the values on.
  ata_read_value : Flags → HarddriveEntry → Disk → Dev W (GetTemp × Disk)
  unfolding read_failure
  ata_read_value flags e dsk = do
    smart ← ata_get_smart_values k dsk.fd
    if not (smart.0 == 0) then read_failure dsk else do
      let values = swap_words 256 smart.1
      let found = ata_search_temperature flags.debug values e.attribute_id
      print found.1
      let value = new_value dsk.value values found.0
      pure (if is_minus_one value then unknown else known, record dsk { value = value })

  -- From the power mode on.
  ata_awake : Flags → HarddriveEntry → Disk → Dev W (GetTemp × Disk)
  unfolding ata_read_value enable_failure
  ata_awake flags e dsk = do
    mode ← ata_get_powermode k dsk.fd
    if sleeps mode && not flags.wakeup then pure (drive_sleep, dsk) else do
      ret ← ata_enable_smart k dsk.fd
      if not (ret == 0) then enable_failure dsk else ata_read_value flags e dsk

  ata_with_entry : Flags → HarddriveEntry → Disk → Dev W (GetTemp × Disk)
  unfolding ata_awake
  ata_with_entry flags e dsk =
      if e.attribute_id == 0 then (do dsk' ← close_disk k dsk; pure (no_sensor, dsk')) else (do
        packet ← ata_get_packet k dsk.fd
        if packet
            then pure (not_applicable, set_errormsg dsk (codes "S.M.A.R.T. not available"))
            else ata_awake flags e dsk)

  from_entry : Flags → Disk → Option HarddriveEntry → Dev W (GetTemp × Disk)
  unfolding ata_with_entry
  from_entry flags dsk none = crash
  from_entry flags dsk (some e) = ata_with_entry flags e dsk

  unfoldable pub ata_get_temperature : Flags → Disk → Dev W (GetTemp × Disk)
  unfolding from_entry
  ata_get_temperature flags dsk = from_entry flags dsk dsk.db_entry
