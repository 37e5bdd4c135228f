-- ===== src/Scsi.antt =====
-- src/scsi.c: the drives on the SCSI bus.
pub mod Kept
pub mod Support
pub mod Command
pub mod History
pub mod Outcome
pub mod Heard
pub mod Small
pub mod Silent
use hddtemp.Prelude.{
  ℕ, zero, suc, ◌+◌, Bool, true, false, not, ◌||◌, Option, none, some, [], ◌∷◌, ◌++◌, ◌==◌,
  if◌then◌else◌, Bytes, drop, get_or, codes,
}
use hddtemp.Prelude.Int.{pos}
use hddtemp.Db.{HarddriveEntry}
use hddtemp.Device.{
  Disk, GetTemp, gettemp_error, not_applicable, known, no_sensor, set_errormsg, scsi_get_bus_number,
  Reply, Kernel, Dev, ◌>>=◌, ◌>>◌, pure, get_errno, ioctl, close_disk, strdup,
}
use hddtemp.ScsiCmds.{
  support_log_pages, temperature_page, scsi_inquiry, scsi_logsense, scsi_smartsupport,
  scsi_smart_dexcpt_disable,
}

-- The loop over the page numbers from offset `i` on, `n` of them.
unfoldable pub lists_page : ℕ → Bytes → ℕ → Bool
lists_page zero buffer i = false
lists_page (suc n) buffer i = get_or buffer i 0 == temperature_page || lists_page n buffer (i + 1)

-- The entry that `scsi_get_temperature` makes.
abbrev pub scsi_entry : HarddriveEntry
scsi_entry = record { regexp = []; attribute_id = 0; description = []; unit = b'C' }

module _ {W : Type 0} (k : Kernel W) where
  unfoldable pub scsi_probe : Option ℕ → Dev W Bool
  scsi_probe device = do r ← ioctl k (scsi_get_bus_number device); pure (r.ret == 0)

  unfoldable pub scsi_model : Option ℕ → Dev W Bytes
  scsi_model device = do
    r ← scsi_inquiry k device
    if not (r.0 == 0) then pure (codes "unknown") else strdup (drop 8 r.1)

  -- The end of a call that cannot go on: a text, the drive closed.
  give_up : Disk → Bytes → GetTemp → Dev W (GetTemp × Disk)
  give_up dsk text ret = do dsk' ← close_disk k (set_errormsg dsk text); pure (ret, dsk')

  -- From the temperature page on.
  scsi_read_page : Disk → Dev W (GetTemp × Disk)
  scsi_read_page dsk = do
    page ← scsi_logsense k dsk.fd temperature_page 1024
    if not (page.0 == 0)
        then (do
          errno ← get_errno
          give_up dsk (codes "log sense failed : " ++ k.strerror errno) gettemp_error)
        else pure (known, record dsk { value = pos (get_or page.1 9 0) })

  -- From the list of pages on.
  scsi_read_value : Disk → Dev W (GetTemp × Disk)
  unfolding scsi_read_page
  scsi_read_value dsk = do
    pages ← scsi_logsense k dsk.fd support_log_pages 1024
    if not (pages.0 == 0)
        then (do
          errno ← get_errno
          give_up dsk (codes "log sense failed : " ++ k.strerror errno) gettemp_error)
        else (if lists_page (get_or pages.1 3 0) pages.1 4
            then scsi_read_page dsk
            else pure (no_sensor, dsk))

  scsi_with_entry : Disk → Dev W (GetTemp × Disk)
  unfolding scsi_read_value
  scsi_with_entry dsk = do
    smart ← scsi_smartsupport k dsk.fd
    if not smart then give_up dsk (codes "S.M.A.R.T. not available") not_applicable else do
      ret ← scsi_smart_dexcpt_disable k dsk.fd
      if not (ret == 0)
          then (do errno ← get_errno; give_up dsk (k.strerror errno) gettemp_error)
          else scsi_read_value dsk

  unfoldable pub scsi_get_temperature : Disk → Dev W (GetTemp × Disk)
  unfolding scsi_with_entry give_up lists_page
  scsi_get_temperature dsk = scsi_with_entry (record dsk { db_entry = some scsi_entry })
