-- ===== src/Sata/Kept.antt =====
-- `sata_get_temperature` returns, whatever the kernel answers, and keeps what it must of the disk.
use hddtemp.Prelude.{ℕ, not, ◌&&◌, Option, none, some, ◌==◌, ◌≡◌, refl}
use hddtemp.Db.{HarddriveEntry}
use hddtemp.Device.{Disk, no_sensor, Flags, Kernel, ◌>>=◌, sleeps}
use hddtemp.Device.Ensures.{Ensures-bind, Ensures-if}
use hddtemp.Device.Kept.{IsSome, Runs, Keeps, Keeps-pure, Runs-print, Keeps-close_disk}
use hddtemp.ScsiCmds.{scsi_sg_io}
use hddtemp.SataCmds.{sata_pass_thru, sata_enable_smart, sata_get_smart_values}
use hddtemp.Ata.Kept.{Kept-same, ata_get_powermode-Runs, enable_failure-Kept, read_failure-Kept}
use hddtemp.Sata.{sata_read_value, sata_with_entry, from_entry, sata_get_temperature}

module _ {W : Type 0} (k : Kernel W) where
  sata_get_smart_values-Runs : (fd : Option ℕ) → Runs (sata_get_smart_values k fd)
  unfolding sata_get_smart_values sata_pass_thru scsi_sg_io ◌>>=◌
  sata_get_smart_values-Runs fd = record { at = λ s q. tt }

  pub sata_enable_smart-Runs : (fd : Option ℕ) → Runs (sata_enable_smart k fd)
  unfolding sata_enable_smart sata_pass_thru scsi_sg_io ◌>>=◌
  sata_enable_smart-Runs fd = record { at = λ s q. tt }

  sata_read_value-Kept :
      (flags : Flags) (e : HarddriveEntry) (dsk : Disk)
      → IsSome dsk.db_entry
      → Keeps dsk (sata_read_value k flags e dsk)
  unfolding sata_read_value
  sata_read_value-Kept flags e dsk h = Ensures-bind (sata_get_smart_values-Runs dsk.fd) λ smart.
      Ensures-if (not (smart.0 == 0)) (λ _. read_failure-Kept k dsk h)
        (λ _. Ensures-bind (Runs-print _) λ _.
          Keeps-pure dsk _ _ (record { drive = refl; model = refl; bus = refl; has_entry = h }))

  sata_with_entry-Kept :
      (flags : Flags) (e : HarddriveEntry) (dsk : Disk)
      → IsSome dsk.db_entry
      → Keeps dsk (sata_with_entry k flags e dsk)
  unfolding sata_with_entry
  sata_with_entry-Kept flags e dsk h =
      Ensures-if (e.attribute_id == 0) (λ _. Keeps-close_disk k dsk dsk no_sensor (Kept-same dsk h))
        (λ _. Ensures-bind (ata_get_powermode-Runs k dsk.fd) λ mode.
          Ensures-if (sleeps mode && not flags.wakeup) (λ _. Keeps-pure dsk _ _ (Kept-same dsk h))
            (λ _. Ensures-bind (sata_enable_smart-Runs dsk.fd) λ ret.
              Ensures-if (not (ret == 0)) (λ _. enable_failure-Kept k dsk h)
                (λ _. sata_read_value-Kept flags e dsk h)))

  from_entry-Kept :
      (flags : Flags) (dsk : Disk) (o : Option HarddriveEntry)
      → dsk.db_entry ≡ o
      → IsSome o
      → Keeps dsk (from_entry k flags dsk o)
  unfolding from_entry
  from_entry-Kept flags dsk none q h = absurd h
  from_entry-Kept flags dsk (some e) q h = sata_with_entry-Kept flags e dsk (rw q h)

  pub sata_get_temperature-Kept :
      (flags : Flags) (dsk : Disk)
      → IsSome dsk.db_entry
      → Keeps dsk (sata_get_temperature k flags dsk)
  unfolding sata_get_temperature
  sata_get_temperature-Kept flags dsk h = from_entry-Kept flags dsk dsk.db_entry refl h
