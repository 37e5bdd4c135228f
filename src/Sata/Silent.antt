-- ===== src/Sata/Silent.antt =====
-- src/sata.c and src/satacmds.c: without -D the driver prints nothing.
use hddtemp.Prelude.{ℕ, Bool, false, not, ◌&&◌, ◌==◌, Option, none, some, Bytes}
use hddtemp.Db.{HarddriveEntry}
use hddtemp.Smart.{swap_words, sata_search_temperature, sata_field}
use hddtemp.Device.{Disk, Flags, Kernel, sleeps}
use hddtemp.Device.Ensures.{Ensures-bind, Ensures-if}
use hddtemp.Device.Kept.{IsSome}
use hddtemp.Device.Silent.{Silent, Silent-pure, Silent-ioctl, Silent-close_disk, Silent-print}
use hddtemp.Ata.Silent.{
  search_loop-quiet, ata_get_powermode-Silent, enable_failure-Silent, read_failure-Silent,
}
use hddtemp.AtaCmds.{win_smart, smart_enable, smart_read_values}
use hddtemp.ScsiCmds.{scsi_sg_io}
use hddtemp.SataCmds.{Cmd, sata_pass_thru, sata_enable_smart, sata_get_smart_values}
use hddtemp.Sata.{sata_read_value, sata_with_entry, from_entry, sata_get_temperature}

module _ {W : Type 0} (out : Bytes) (k : Kernel W) where
  pub sata_pass_thru-Silent :
      (device : Option ℕ) (cmd : Cmd) → Silent out (sata_pass_thru k device cmd)
  unfolding sata_pass_thru scsi_sg_io
  sata_pass_thru-Silent device cmd = Ensures-bind (Silent-ioctl out k _) λ r. Silent-pure out _

  sata_enable_smart-Silent : (device : Option ℕ) → Silent out (sata_enable_smart k device)
  unfolding sata_enable_smart
  sata_enable_smart-Silent device =
      Ensures-bind
        (sata_pass_thru-Silent device
          (record { c₀ = win_smart; c₁ = 0; c₂ = smart_enable; c₃ = 0 }))
        λ r. Silent-pure out _

  sata_get_smart_values-Silent : (device : Option ℕ) → Silent out (sata_get_smart_values k device)
  unfolding sata_get_smart_values
  sata_get_smart_values-Silent device =
      sata_pass_thru-Silent device
        (record { c₀ = win_smart; c₁ = 0; c₂ = smart_read_values; c₃ = 1 })

  module _ (wakeup : Bool) (dsk : Disk) where
    -- The flags without -D.
    abbrev flags : Flags
    flags = record { debug = false; wakeup = wakeup }

    sata_read_value-Silent : (e : HarddriveEntry) → Silent out (sata_read_value k flags e dsk)
    unfolding sata_read_value sata_search_temperature
    sata_read_value-Silent e = Ensures-bind (sata_get_smart_values-Silent dsk.fd) λ smart.
        Ensures-if (not (smart.0 == 0)) (λ _. read_failure-Silent out k dsk)
          (λ _.
            Ensures-bind
              (Silent-print out _
                (search_loop-quiet sata_field (swap_words 256 smart.1) e.attribute_id 30 3))
              λ _. Silent-pure out _)

    from_entry-Silent :
        (o : Option HarddriveEntry) → IsSome o → Silent out (from_entry k flags dsk o)
    unfolding from_entry sata_with_entry
    from_entry-Silent none i = absurd i
    from_entry-Silent (some e) i =
        Ensures-if (e.attribute_id == 0) (λ _. Silent-close_disk out k _ _)
          (λ _. Ensures-bind (ata_get_powermode-Silent out k dsk.fd) λ mode.
            Ensures-if (sleeps mode && not wakeup) (λ _. Silent-pure out _)
              (λ _. Ensures-bind (sata_enable_smart-Silent dsk.fd) λ ret.
                Ensures-if (not (ret == 0)) (λ _. enable_failure-Silent out k dsk)
                  (λ _. sata_read_value-Silent e)))

    pub sata_get_temperature-Silent :
        IsSome dsk.db_entry → Silent out (sata_get_temperature k flags dsk)
    unfolding sata_get_temperature
    sata_get_temperature-Silent i = from_entry-Silent dsk.db_entry i
