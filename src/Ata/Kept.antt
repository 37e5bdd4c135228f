-- ===== src/Ata/Kept.antt =====
-- `ata_get_temperature` returns, whatever the kernel answers, and keeps what it must of the disk.
use hddtemp.Prelude.{ℕ, not, ◌&&◌, Option, none, some, [], ◌∷◌, ◌==◌, ◌≡◌, refl, Bytes, drop, codes}
use hddtemp.Db.{HarddriveEntry}
use hddtemp.Device.{Disk, no_sensor, Flags, set_errormsg, hdio_drive_cmd, Kernel, ◌>>=◌, sleeps}
use hddtemp.Device.Ensures.{Ensures-bind, Ensures-if}
use hddtemp.Device.Kept.{
  IsSome, Kept, Runs, Keeps, Runs-pure, Keeps-pure, Runs-print, Runs-get_errno, Runs-ioctl,
  Keeps-close_disk,
}
use hddtemp.AtaCmds.{ata_enable_smart, ata_get_smart_values, ata_get_powermode, ata_get_packet}
use hddtemp.Ata.{
  enable_failure, read_failure, ata_read_value, ata_awake, ata_with_entry, from_entry,
  ata_get_temperature,
}

pub Kept-same : (dsk : Disk) → IsSome dsk.db_entry → Kept dsk dsk
Kept-same dsk h = record { drive = refl; model = refl; bus = refl; has_entry = h }

pub Kept-text : (dsk : Disk) (text : Bytes) → IsSome dsk.db_entry → Kept dsk (set_errormsg dsk text)
Kept-text dsk text h = record { drive = refl; model = refl; bus = refl; has_entry = h }

module _ {W : Type 0} (k : Kernel W) where
  pub ata_get_packet-Runs : (fd : Option ℕ) → Runs (ata_get_packet k fd)
  unfolding ata_get_packet ◌>>=◌
  ata_get_packet-Runs fd = record { at = λ s q. tt }

  ata_get_smart_values-Runs : (fd : Option ℕ) → Runs (ata_get_smart_values k fd)
  unfolding ata_get_smart_values ◌>>=◌
  ata_get_smart_values-Runs fd = record { at = λ s q. tt }

  pub ata_enable_smart-Runs : (fd : Option ℕ) → Runs (ata_enable_smart k fd)
  unfolding ata_enable_smart ◌>>=◌
  ata_enable_smart-Runs fd = record { at = λ s q. tt }

  pub ata_get_powermode-Runs : (fd : Option ℕ) → Runs (ata_get_powermode k fd)
  unfolding ata_get_powermode
  ata_get_powermode-Runs fd =
      Ensures-bind (Runs-ioctl k (hdio_drive_cmd fd (0xe5 ∷ 0 ∷ 0 ∷ 0 ∷ []))) λ first.
        Ensures-if (first.ret == 0) (λ _. Runs-pure _)
          (λ _.
            Ensures-bind (Runs-ioctl k (hdio_drive_cmd fd (0x98 ∷ drop 1 first.content)))
              λ second. Ensures-bind Runs-get_errno λ errno. Runs-pure _)

  pub enable_failure-Kept : (dsk : Disk) → IsSome dsk.db_entry → Keeps dsk (enable_failure k dsk)
  unfolding enable_failure
  enable_failure-Kept dsk h =
      Ensures-bind Runs-get_errno λ errno. Keeps-close_disk k dsk _ _ (Kept-text dsk _ h)

  pub read_failure-Kept : (dsk : Disk) → IsSome dsk.db_entry → Keeps dsk (read_failure k dsk)
  unfolding read_failure
  read_failure-Kept dsk h =
      Ensures-bind Runs-get_errno λ errno. Keeps-close_disk k dsk _ _ (Kept-text dsk _ h)

  ata_read_value-Kept :
      (flags : Flags) (e : HarddriveEntry) (dsk : Disk)
      → IsSome dsk.db_entry
      → Keeps dsk (ata_read_value k flags e dsk)
  unfolding ata_read_value
  ata_read_value-Kept flags e dsk h = Ensures-bind (ata_get_smart_values-Runs dsk.fd) λ smart.
      Ensures-if (not (smart.0 == 0)) (λ _. read_failure-Kept dsk h)
        (λ _. Ensures-bind (Runs-print _) λ _.
          Keeps-pure dsk _ _ (record { drive = refl; model = refl; bus = refl; has_entry = h }))

  ata_awake-Kept :
      (flags : Flags) (e : HarddriveEntry) (dsk : Disk)
      → IsSome dsk.db_entry
      → Keeps dsk (ata_awake k flags e dsk)
  unfolding ata_awake
  ata_awake-Kept flags e dsk h = Ensures-bind (ata_get_powermode-Runs dsk.fd) λ mode.
      Ensures-if (sleeps mode && not flags.wakeup) (λ _. Keeps-pure dsk _ _ (Kept-same dsk h))
        (λ _. Ensures-bind (ata_enable_smart-Runs dsk.fd) λ ret.
          Ensures-if (not (ret == 0)) (λ _. enable_failure-Kept dsk h)
            (λ _. ata_read_value-Kept flags e dsk h))

  ata_with_entry-Kept :
      (flags : Flags) (e : HarddriveEntry) (dsk : Disk)
      → IsSome dsk.db_entry
      → Keeps dsk (ata_with_entry k flags e dsk)
  unfolding ata_with_entry
  ata_with_entry-Kept flags e dsk h =
      Ensures-if (e.attribute_id == 0) (λ _. Keeps-close_disk k dsk dsk no_sensor (Kept-same dsk h))
        (λ _. Ensures-bind (ata_get_packet-Runs dsk.fd) λ packet.
          Ensures-if packet
            (λ _. Keeps-pure dsk _ _ (Kept-text dsk (codes "S.M.A.R.T. not available") h))
            (λ _. ata_awake-Kept flags e dsk h))

  from_entry-Kept :
      (flags : Flags) (dsk : Disk) (o : Option HarddriveEntry)
      → dsk.db_entry ≡ o
      → IsSome o
      → Keeps dsk (from_entry k flags dsk o)
  unfolding from_entry
  from_entry-Kept flags dsk none q h = absurd h
  from_entry-Kept flags dsk (some e) q h = ata_with_entry-Kept flags e dsk (rw q h)

  pub ata_get_temperature-Kept :
      (flags : Flags) (dsk : Disk)
      → IsSome dsk.db_entry
      → Keeps dsk (ata_get_temperature k flags dsk)
  unfolding ata_get_temperature
  ata_get_temperature-Kept flags dsk h = from_entry-Kept flags dsk dsk.db_entry refl h
