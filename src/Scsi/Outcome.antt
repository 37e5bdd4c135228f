-- ===== src/Scsi/Outcome.antt =====
-- What `scsi_get_temperature` leaves behind for each of its results, with any kernel.
use hddtemp.Prelude.{false, not, none, some, ◌==◌, ◌≡◌, refl, Bytes, get_or, codes}
use hddtemp.Prelude.Int.{is_minus_one}
use hddtemp.Device.{
  Disk, GetTemp, gettemp_error, not_applicable, unknown, known, no_sensor, drive_sleep, Kernel, Sys,
  Dev, ◌>>=◌, close_disk,
}
use hddtemp.Device.Ensures.{Post, Ensures, Ensures-bind, Ensures-if, Ensures-pure, Ensures-weaken}
use hddtemp.Device.Kept.{Any, Runs-get_errno}
use hddtemp.ScsiCmds.{support_log_pages, temperature_page}
use hddtemp.Scsi.{
  scsi_entry, give_up, scsi_read_page, scsi_read_value, scsi_with_entry, scsi_get_temperature,
  lists_page,
}
use hddtemp.Scsi.Kept.{scsi_logsense-Runs, scsi_smartsupport-Runs, scsi_smart_dexcpt_disable-Runs}

-- What a call leaves of the disk, for each result.
abbrev pub ScsiFate : Disk → GetTemp × Disk → Type 0
ScsiFate dsk (gettemp_error, dsk') = dsk'.fd ≡ none
ScsiFate dsk (not_applicable, dsk') =
    (dsk'.fd ≡ none) × (dsk'.errormsg ≡ codes "S.M.A.R.T. not available")
ScsiFate dsk (unknown, dsk') = ⊥
ScsiFate dsk (known, dsk') =
    (dsk'.fd ≡ dsk.fd) × (is_minus_one dsk'.value ≡ false) × (dsk'.db_entry ≡ some scsi_entry)
ScsiFate dsk (no_sensor, dsk') = (dsk'.fd ≡ dsk.fd) × (dsk'.value ≡ dsk.value)
ScsiFate dsk (drive_sleep, dsk') = ⊥

module _ {W : Type 0} (k : Kernel W) (dsk : Disk) (e : dsk.db_entry ≡ some scsi_entry) where
  abbrev Ends : Dev W (GetTemp × Disk) → Type 0
  Ends m = Ensures Any m (λ r s. ScsiFate dsk r)

  fails : (text : Bytes) → Ends (give_up k dsk text gettemp_error)
  unfolding give_up close_disk ◌>>=◌
  fails text = record { at = λ s q. refl }

  refuses : Ends (give_up k dsk (codes "S.M.A.R.T. not available") not_applicable)
  unfolding give_up close_disk ◌>>=◌
  refuses = record { at = λ s q. (refl, refl) }

  scsi_read_page-ScsiFate : Ends (scsi_read_page k dsk)
  unfolding scsi_read_page
  scsi_read_page-ScsiFate = Ensures-bind (scsi_logsense-Runs k dsk.fd temperature_page 1024) λ page.
      Ensures-if (not (page.0 == 0)) (λ _. Ensures-bind Runs-get_errno λ errno. fails _)
        (λ _. Ensures-pure _ (λ s q. (refl, refl, e)))

  scsi_read_value-ScsiFate : Ends (scsi_read_value k dsk)
  unfolding scsi_read_value
  scsi_read_value-ScsiFate =
      Ensures-bind (scsi_logsense-Runs k dsk.fd support_log_pages 1024) λ pages.
        Ensures-if (not (pages.0 == 0)) (λ _. Ensures-bind Runs-get_errno λ errno. fails _)
          (λ _.
            Ensures-if (lists_page (get_or pages.1 3 0) pages.1 4) (λ _. scsi_read_page-ScsiFate)
              (λ _. Ensures-pure _ (λ s q. (refl, refl))))

  scsi_with_entry-ScsiFate : Ends (scsi_with_entry k dsk)
  unfolding scsi_with_entry
  scsi_with_entry-ScsiFate = Ensures-bind (scsi_smartsupport-Runs k dsk.fd) λ smart.
      Ensures-if (not smart) (λ _. refuses)
        (λ _. Ensures-bind (scsi_smart_dexcpt_disable-Runs k dsk.fd) λ ret.
          Ensures-if (not (ret == 0)) (λ _. Ensures-bind Runs-get_errno λ errno. fails _)
            (λ _. scsi_read_value-ScsiFate))

-- `scsi_get_temperature` returns. With each result: an error, the disk is closed; not applicable, it is
-- closed and the text says so; known, the disk stays open, its value is not -1, and its entry says
-- that it is in Celsius; no sensor, the disk stays open with its value as it was. It is never
-- unknown or asleep.
pub scsi_get_temperature-ScsiFate :
    {W : Type 0} (k : Kernel W) (dsk : Disk) (s : Sys W)
    → Post (λ r s'. ScsiFate dsk r) (scsi_get_temperature k dsk s)
unfolding scsi_get_temperature
scsi_get_temperature-ScsiFate k dsk s =
    (Ensures-weaken (scsi_with_entry-ScsiFate k (record dsk { db_entry = some scsi_entry }) refl)
        (λ r s'. onto dsk r)).at
      s tt
  where
    onto :
        (dsk : Disk) (r : GetTemp × Disk)
        → ScsiFate (record dsk { db_entry = some scsi_entry }) r
        → ScsiFate dsk r
    onto dsk (gettemp_error, d) h = h
    onto dsk (not_applicable, d) h = h
    onto dsk (unknown, d) h = h
    onto dsk (known, d) h = h
    onto dsk (no_sensor, d) h = h
    onto dsk (drive_sleep, d) h = h
