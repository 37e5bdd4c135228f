-- ===== src/Ata/Small.antt =====
-- The value that `ata_get_temperature` leaves is -1 or a byte.
use hddtemp.Prelude.{ℕ, not, ◌&&◌, Option, none, some, ◌==◌}
use hddtemp.Db.{HarddriveEntry}
use hddtemp.Device.{Disk, no_sensor, Flags, Kernel, sleeps}
use hddtemp.Device.Ensures.{Ensures, Ensures-bind, Ensures-if, Ensures-pure}
use hddtemp.Device.Kept.{Any, IsSome, Runs-print, Runs-get_errno, Ensures-given}
use hddtemp.AtaCmds.{ata_get_smart_values}
use hddtemp.Smart.{ata_search_temperature, swap_words}
use hddtemp.Smart.Raw.{IsBytes}
use hddtemp.Smart.Small.{
  HasBytes, IsSmall, IsBytes-drop, IsBytes-take, IsBytes-swap_words, new_value-IsSmall, LeavesSmall,
  ioctl-IsBytes, LeavesSmall-pure, LeavesSmall-close_disk,
}
use hddtemp.Ata.{
  enable_failure, read_failure, ata_read_value, ata_awake, ata_with_entry, from_entry,
  ata_get_temperature,
}
use hddtemp.Ata.Kept.{ata_get_packet-Runs, ata_enable_smart-Runs, ata_get_powermode-Runs}

module _ {W : Type 0} (k : Kernel W) where
  pub enable_failure-IsSmall : (dsk : Disk) → IsSmall dsk.value → LeavesSmall (enable_failure k dsk)
  unfolding enable_failure
  enable_failure-IsSmall dsk v = Ensures-bind Runs-get_errno λ errno. LeavesSmall-close_disk k _ _ v

  pub read_failure-IsSmall : (dsk : Disk) → IsSmall dsk.value → LeavesSmall (read_failure k dsk)
  unfolding read_failure
  read_failure-IsSmall dsk v = Ensures-bind Runs-get_errno λ errno. LeavesSmall-close_disk k _ _ v

  module _ (h : HasBytes k) (flags : Flags) (dsk : Disk) (v : IsSmall dsk.value) where
    ata_get_smart_values-IsBytes :
        (fd : Option ℕ) → Ensures Any (ata_get_smart_values k fd) (λ r s. IsBytes r.1)
    unfolding ata_get_smart_values
    ata_get_smart_values-IsBytes fd = Ensures-bind (ioctl-IsBytes k h _) λ r.
        Ensures-given λ b. Ensures-pure _ (λ s q. IsBytes-take 512 _ (IsBytes-drop 4 r.content b))

    ata_read_value-IsSmall : (e : HarddriveEntry) → LeavesSmall (ata_read_value k flags e dsk)
    unfolding ata_read_value
    ata_read_value-IsSmall e = Ensures-bind (ata_get_smart_values-IsBytes dsk.fd) λ smart.
        Ensures-given {C = IsBytes smart.1} λ b.
          Ensures-if (not (smart.0 == 0)) (λ _. read_failure-IsSmall dsk v)
            (λ _. Ensures-bind (Runs-print _) λ _. LeavesSmall-pure _ _ (
              new_value-IsSmall dsk.value (swap_words 256 smart.1)
                (ata_search_temperature flags.debug (swap_words 256 smart.1) e.attribute_id).0 v
                (IsBytes-swap_words 256 smart.1 b)))

    ata_awake-IsSmall : (e : HarddriveEntry) → LeavesSmall (ata_awake k flags e dsk)
    unfolding ata_awake
    ata_awake-IsSmall e = Ensures-bind (ata_get_powermode-Runs k dsk.fd) λ mode.
        Ensures-if (sleeps mode && not flags.wakeup) (λ _. LeavesSmall-pure _ dsk v)
          (λ _. Ensures-bind (ata_enable_smart-Runs k dsk.fd) λ ret.
            Ensures-if (not (ret == 0)) (λ _. enable_failure-IsSmall dsk v)
              (λ _. ata_read_value-IsSmall e))

    ata_with_entry-IsSmall : (e : HarddriveEntry) → LeavesSmall (ata_with_entry k flags e dsk)
    unfolding ata_with_entry
    ata_with_entry-IsSmall e =
        Ensures-if (e.attribute_id == 0) (λ _. LeavesSmall-close_disk k dsk no_sensor v)
          (λ _.
            Ensures-bind (ata_get_packet-Runs k dsk.fd)
              λ packet. Ensures-if packet (λ _. LeavesSmall-pure _ _ v) (λ _. ata_awake-IsSmall e))

    from_entry-IsSmall :
        (o : Option HarddriveEntry) → IsSome o → LeavesSmall (from_entry k flags dsk o)
    unfolding from_entry
    from_entry-IsSmall none i = absurd i
    from_entry-IsSmall (some e) i = ata_with_entry-IsSmall e

    pub ata_get_temperature-IsSmall :
        IsSome dsk.db_entry → LeavesSmall (ata_get_temperature k flags dsk)
    unfolding ata_get_temperature
    ata_get_temperature-IsSmall i = from_entry-IsSmall dsk.db_entry i
