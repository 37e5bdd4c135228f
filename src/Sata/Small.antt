-- ===== src/Sata/Small.antt =====
-- The value that `sata_get_temperature` leaves is -1 or a byte.
use hddtemp.Prelude.{ℕ, not, ◌&&◌, Option, none, some, ◌==◌}
use hddtemp.Db.{HarddriveEntry}
use hddtemp.Device.{Disk, no_sensor, Flags, Kernel, sleeps}
use hddtemp.Device.Ensures.{Ensures, Ensures-bind, Ensures-if, Ensures-pure}
use hddtemp.Device.Kept.{Any, IsSome, Runs-print, Ensures-given}
use hddtemp.ScsiCmds.{scsi_sg_io}
use hddtemp.SataCmds.{sata_pass_thru, sata_get_smart_values}
use hddtemp.Smart.{sata_search_temperature, swap_words}
use hddtemp.Smart.Raw.{IsBytes}
use hddtemp.Smart.Small.{
  HasBytes, IsSmall, IsBytes-swap_words, new_value-IsSmall, LeavesSmall, ioctl-IsBytes,
  LeavesSmall-pure, LeavesSmall-close_disk,
}
use hddtemp.Ata.Kept.{ata_get_powermode-Runs}
use hddtemp.Ata.Small.{enable_failure-IsSmall, read_failure-IsSmall}
use hddtemp.Sata.{sata_read_value, sata_with_entry, from_entry, sata_get_temperature}
use hddtemp.Sata.Kept.{sata_enable_smart-Runs}

module _ {W : Type 0} (k : Kernel W) (h : HasBytes k) (flags : Flags) (dsk : Disk)
    (v : IsSmall dsk.value) where
  sata_get_smart_values-IsBytes :
      (fd : Option ℕ) → Ensures Any (sata_get_smart_values k fd) (λ r s. IsBytes r.1)
  unfolding sata_get_smart_values sata_pass_thru scsi_sg_io
  sata_get_smart_values-IsBytes fd =
      Ensures-bind (ioctl-IsBytes k h _) λ r. Ensures-given λ b. Ensures-pure _ (λ s q. b)

  sata_read_value-IsSmall : (e : HarddriveEntry) → LeavesSmall (sata_read_value k flags e dsk)
  unfolding sata_read_value
  sata_read_value-IsSmall e = Ensures-bind (sata_get_smart_values-IsBytes dsk.fd) λ smart.
      Ensures-given {C = IsBytes smart.1} λ b.
        Ensures-if (not (smart.0 == 0)) (λ _. read_failure-IsSmall k dsk v)
          (λ _. Ensures-bind (Runs-print _) λ _. LeavesSmall-pure _ _ (
            new_value-IsSmall dsk.value (swap_words 256 smart.1)
              (sata_search_temperature flags.debug (swap_words 256 smart.1) e.attribute_id).0 v
              (IsBytes-swap_words 256 smart.1 b)))

  sata_with_entry-IsSmall : (e : HarddriveEntry) → LeavesSmall (sata_with_entry k flags e dsk)
  unfolding sata_with_entry
  sata_with_entry-IsSmall e =
      Ensures-if (e.attribute_id == 0) (λ _. LeavesSmall-close_disk k dsk no_sensor v)
        (λ _. Ensures-bind (ata_get_powermode-Runs k dsk.fd) λ mode.
          Ensures-if (sleeps mode && not flags.wakeup) (λ _. LeavesSmall-pure _ dsk v)
            (λ _. Ensures-bind (sata_enable_smart-Runs k dsk.fd) λ ret.
              Ensures-if (not (ret == 0)) (λ _. enable_failure-IsSmall k dsk v)
                (λ _. sata_read_value-IsSmall e)))

  from_entry-IsSmall :
      (o : Option HarddriveEntry) → IsSome o → LeavesSmall (from_entry k flags dsk o)
  unfolding from_entry
  from_entry-IsSmall none i = absurd i
  from_entry-IsSmall (some e) i = sata_with_entry-IsSmall e

  pub sata_get_temperature-IsSmall :
      IsSome dsk.db_entry → LeavesSmall (sata_get_temperature k flags dsk)
  unfolding sata_get_temperature
  sata_get_temperature-IsSmall i = from_entry-IsSmall dsk.db_entry i
