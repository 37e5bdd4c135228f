-- ===== src/Sata/Outcome.antt =====
-- What `sata_get_temperature` leaves behind for each of its results, with any kernel.
use mathlib.Core.Path.{subst}
use hddtemp.Prelude.{ℕ, not, ◌&&◌, Option, some, List, [], ◌==◌, ◌≡◌, refl, sym, arith}
use hddtemp.Db.{HarddriveEntry}
use hddtemp.Device.{Disk, Flags, Request, Kernel, Sys, ◌>>=◌, sleeps}
use hddtemp.Device.Ensures.{Post, Ensures, Ensures-pure, Ensures-if, Ensures-bind}
use hddtemp.Device.Log.{logged, IsPowerMode, Quiet, Fate}
use hddtemp.Device.Kept.{Any}
use hddtemp.Device.Silent.{Ensures-from}
use hddtemp.Smart.{sata_search_temperature, swap_words}
use hddtemp.ScsiCmds.{scsi_sg_io}
use hddtemp.SataCmds.{sata_pass_thru, sata_enable_smart, sata_get_smart_values}
use hddtemp.Ata.{new_value}
use hddtemp.Ata.Outcome.{
  ata_get_powermode-Quiet, close_disk-Fate, enable_failure-Fate, print-runs, read_failure-Fate,
  value-Fate,
}
use hddtemp.Sata.{sata_read_value, sata_with_entry, from_entry, sata_get_temperature}

module _ {W : Type 0} (k : Kernel W) where
  sata_get_smart_values-runs :
      (fd : Option ℕ) → Ensures Any (sata_get_smart_values (logged k) fd) (λ r s. Any s)
  unfolding sata_get_smart_values sata_pass_thru scsi_sg_io ◌>>=◌
  sata_get_smart_values-runs fd = record { at = λ s q. tt }

  sata_enable_smart-runs :
      (fd : Option ℕ) → Ensures Any (sata_enable_smart (logged k) fd) (λ r s. Any s)
  unfolding sata_enable_smart sata_pass_thru scsi_sg_io ◌>>=◌
  sata_enable_smart-runs fd = record { at = λ s q. tt }

  sata_read_value-Fate :
      (flags : Flags) (e : HarddriveEntry) (dsk : Disk)
      → Ensures Any (sata_read_value (logged k) flags e dsk) (Fate (IsPowerMode dsk.fd) flags dsk)
  unfolding sata_read_value
  sata_read_value-Fate flags e dsk = Ensures-bind (sata_get_smart_values-runs dsk.fd) λ smart.
      Ensures-if (not (smart.0 == 0)) (λ _. read_failure-Fate (IsPowerMode dsk.fd) k flags dsk)
        (λ _. Ensures-bind (print-runs (IsPowerMode dsk.fd) k _) λ _. Ensures-pure _ (λ s q.
          value-Fate (IsPowerMode dsk.fd) k flags dsk
            (new_value dsk.value (swap_words 256 smart.1)
              (sata_search_temperature flags.debug (swap_words 256 smart.1) e.attribute_id).0)
            s))

  sata_with_entry-Fate :
      (flags : Flags) (e : HarddriveEntry) (dsk : Disk)
      → Ensures
          (Quiet (IsPowerMode dsk.fd))
          (sata_with_entry (logged k) flags e dsk)
          (Fate (IsPowerMode dsk.fd) flags dsk)
  unfolding sata_with_entry
  sata_with_entry-Fate flags e dsk =
      Ensures-if (e.attribute_id == 0)
        (λ _.
          Ensures-bind (close_disk-Fate (IsPowerMode dsk.fd) k dsk)
            λ dsk'. Ensures-pure _ (λ s q. q))
        (λ _.
          Ensures-bind (ata_get_powermode-Quiet (IsPowerMode dsk.fd) k dsk.fd (λ req h. h)) λ mode.
            Ensures-if (sleeps mode && not flags.wakeup)
              (λ h. Ensures-pure _ (λ s q. (refl, ground arith, q)))
              (λ _. Ensures-bind (Ensures-from (sata_enable_smart-runs dsk.fd)) λ ret.
                Ensures-if (not (ret == 0))
                  (λ _. enable_failure-Fate (IsPowerMode dsk.fd) k flags dsk)
                  (λ _. sata_read_value-Fate flags e dsk)))

  -- From a state with no request made, `sata_get_temperature` on a disk with a database entry
  -- returns. With each result: an error or a missing sensor, the disk is closed; not applicable, the
  -- text says so; known or unknown, the disk stays open and its value is not -1, or is -1; asleep,
  -- the disk is as before, waking was not asked for, and no request was made but of this drive, for its
  -- power mode.
  pub sata_get_temperature-Fate :
      (flags : Flags) (dsk : Disk) (e : HarddriveEntry) (s : Sys (W × List Request))
      → dsk.db_entry ≡ some e
      → s.world.1 ≡ []
      → Post (Fate (IsPowerMode dsk.fd) flags dsk) (sata_get_temperature (logged k) flags dsk s)
  unfolding sata_get_temperature
  sata_get_temperature-Fate flags dsk e s h q =
      subst (λ o. Post (Fate (IsPowerMode dsk.fd) flags dsk) (from_entry (logged k) flags dsk o s))
        (sym h) ((sata_with_entry-Fate flags e dsk).at s (rw q tt))
