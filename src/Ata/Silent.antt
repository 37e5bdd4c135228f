-- ===== src/Ata/Silent.antt =====
-- src/ata.c and src/atacmds.c: without -D the driver prints nothing.
use hddtemp.Prelude.{
  ℕ, ◌+◌, Bool, true, false, not, ◌&&◌, ◌==◌, Option, none, some, [], ◌≡◌, refl, Bytes, get_or,
  if◌then◌else◌,
}
use hddtemp.Db.{HarddriveEntry}
use hddtemp.Smart.{search_loop, swap_words, ata_search_temperature, ata_field}
use hddtemp.Device.{Disk, Flags, Kernel, sleeps}
use hddtemp.Device.Ensures.{Ensures-bind, Ensures-if}
use hddtemp.Device.Kept.{IsSome}
use hddtemp.Device.Silent.{
  Silent, Silent-pure, Silent-get_errno, Silent-ioctl, Silent-close_disk, Silent-print,
}
use hddtemp.AtaCmds.{ata_enable_smart, ata_get_smart_values, ata_get_powermode, ata_get_packet}
use hddtemp.Ata.{
  enable_failure, read_failure, ata_read_value, ata_awake, ata_with_entry, from_entry,
  ata_get_temperature,
}

-- The search prints nothing without -D.
pub search_loop-quiet :
    (line : ℕ → ℕ → Bytes) (smart_data : Bytes) (attribute_id rounds n : ℕ)
    → (search_loop line false smart_data attribute_id rounds n []).1 ≡ []
unfolding search_loop
search_loop-quiet line smart_data attribute_id ℕ.zero n = refl
search_loop-quiet line smart_data attribute_id (ℕ.suc rounds) n =
    elim (get_or smart_data n 0 == attribute_id)
      as (λ b.
        (if not b
          then search_loop line false smart_data attribute_id rounds (n + 12) []
          else (some n, [])).1
        ≡ []) [
          | true ↦ refl
          | false ↦ search_loop-quiet line smart_data attribute_id rounds (n + 12)
        ]

module _ {W : Type 0} (out : Bytes) (k : Kernel W) where
  pub ata_get_powermode-Silent : (device : Option ℕ) → Silent out (ata_get_powermode k device)
  unfolding ata_get_powermode
  ata_get_powermode-Silent device = Ensures-bind (Silent-ioctl out k _) λ first.
      Ensures-if (first.ret == 0) (λ _. Silent-pure out _)
        (λ _.
          Ensures-bind (Silent-ioctl out k _)
            λ second. Ensures-bind (Silent-get_errno out) λ errno. Silent-pure out _)

  pub enable_failure-Silent : (dsk : Disk) → Silent out (enable_failure k dsk)
  unfolding enable_failure
  enable_failure-Silent dsk =
      Ensures-bind (Silent-get_errno out) λ errno. Silent-close_disk out k _ _

  pub read_failure-Silent : (dsk : Disk) → Silent out (read_failure k dsk)
  unfolding read_failure
  read_failure-Silent dsk = Ensures-bind (Silent-get_errno out) λ errno. Silent-close_disk out k _ _

  ata_enable_smart-Silent : (device : Option ℕ) → Silent out (ata_enable_smart k device)
  unfolding ata_enable_smart
  ata_enable_smart-Silent device = Ensures-bind (Silent-ioctl out k _) λ r. Silent-pure out _

  ata_get_packet-Silent : (device : Option ℕ) → Silent out (ata_get_packet k device)
  unfolding ata_get_packet
  ata_get_packet-Silent device = Ensures-bind (Silent-ioctl out k _) λ r. Silent-pure out _

  ata_get_smart_values-Silent : (device : Option ℕ) → Silent out (ata_get_smart_values k device)
  unfolding ata_get_smart_values
  ata_get_smart_values-Silent device = Ensures-bind (Silent-ioctl out k _) λ r. Silent-pure out _

  module _ (wakeup : Bool) (dsk : Disk) where
    -- The flags without -D.
    abbrev flags : Flags
    flags = record { debug = false; wakeup = wakeup }

    ata_read_value-Silent : (e : HarddriveEntry) → Silent out (ata_read_value k flags e dsk)
    unfolding ata_read_value ata_search_temperature
    ata_read_value-Silent e = Ensures-bind (ata_get_smart_values-Silent dsk.fd) λ smart.
        Ensures-if (not (smart.0 == 0)) (λ _. read_failure-Silent dsk)
          (λ _.
            Ensures-bind
              (Silent-print out _
                (search_loop-quiet ata_field (swap_words 256 smart.1) e.attribute_id 30 3))
              λ _. Silent-pure out _)

    ata_awake-Silent : (e : HarddriveEntry) → Silent out (ata_awake k flags e dsk)
    unfolding ata_awake
    ata_awake-Silent e = Ensures-bind (ata_get_powermode-Silent dsk.fd) λ mode.
        Ensures-if (sleeps mode && not wakeup) (λ _. Silent-pure out _)
          (λ _. Ensures-bind (ata_enable_smart-Silent dsk.fd) λ ret.
            Ensures-if (not (ret == 0)) (λ _. enable_failure-Silent dsk)
              (λ _. ata_read_value-Silent e))

    from_entry-Silent :
        (o : Option HarddriveEntry) → IsSome o → Silent out (from_entry k flags dsk o)
    unfolding from_entry ata_with_entry
    from_entry-Silent none i = absurd i
    from_entry-Silent (some e) i =
        Ensures-if (e.attribute_id == 0) (λ _. Silent-close_disk out k _ _)
          (λ _.
            Ensures-bind (ata_get_packet-Silent dsk.fd)
              λ packet. Ensures-if packet (λ _. Silent-pure out _) (λ _. ata_awake-Silent e))

    pub ata_get_temperature-Silent :
        IsSome dsk.db_entry → Silent out (ata_get_temperature k flags dsk)
    unfolding ata_get_temperature
    ata_get_temperature-Silent i = from_entry-Silent dsk.db_entry i
