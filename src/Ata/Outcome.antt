-- ===== src/Ata/Outcome.antt =====
-- What `ata_get_temperature` leaves behind for each of its results, with any kernel.
use mathlib.Core.Path.{subst}
use hddtemp.Prelude.{
  ℕ, not, ◌&&◌, Option, none, some, [], ◌∷◌, ◌==◌, ◌≡◌, refl, sym, drop, inl, inr, if◌then◌else◌,
  Bytes, Bool-cases, arith, List,
}
use hddtemp.Prelude.Int.{ℤ, is_minus_one}
use hddtemp.Db.{HarddriveEntry}
use hddtemp.Device.{
  Disk, unknown, known, Flags, Request, hdio_get_identity, hdio_drive_cmd, Kernel, Sys, ◌>>=◌,
  get_errno, print, ioctl, close_disk, sleeps,
}
use hddtemp.Device.Ensures.{Post, Ensures, Ensures-pure, Ensures-if, Ensures-bind}
use hddtemp.Device.Log.{logged, IsPowerMode, IsHarmless, AllSuch-append, Quiet, Fate}
use hddtemp.Device.Kept.{Any}
use hddtemp.AtaCmds.{eio, ata_enable_smart, ata_get_smart_values, ata_get_powermode, ata_get_packet}
use hddtemp.Smart.{ata_search_temperature, swap_words}
use hddtemp.Ata.{
  new_value, enable_failure, read_failure, ata_read_value, ata_awake, ata_with_entry, from_entry,
  ata_get_temperature,
}

-- `H` is what may be asked of a drive that turns out to sleep.
module _ (H : Request → Type 0) {W : Type 0} (k : Kernel W) where
  ata_get_packet-Quiet :
      (fd : Option ℕ)
      → H (hdio_get_identity fd)
      → Ensures (Quiet H) (ata_get_packet (logged k) fd) (λ b s. Quiet H s)
  unfolding ata_get_packet ◌>>=◌
  ata_get_packet-Quiet fd h = record {
    at = λ s q. AllSuch-append H s.world.1 (hdio_get_identity fd) q h;
  }

  ioctl-Quiet :
      (req : Request) → H req → Ensures (Quiet H) (ioctl (logged k) req) (λ r s. Quiet H s)
  unfolding ioctl
  ioctl-Quiet req h = record { at = λ s q. AllSuch-append H s.world.1 req q h }

  pub get_errno-Quiet : Ensures (Quiet H) (get_errno {W = W × List Request}) (λ e s. Quiet H s)
  unfolding get_errno
  get_errno-Quiet = record { at = λ s q. q }

  ata_get_smart_values-runs :
      (fd : Option ℕ) → Ensures Any (ata_get_smart_values (logged k) fd) (λ r s. Any s)
  unfolding ata_get_smart_values ◌>>=◌
  ata_get_smart_values-runs fd = record { at = λ s q. tt }

  ata_enable_smart-runs :
      (fd : Option ℕ) → Ensures (Quiet H) (ata_enable_smart (logged k) fd) (λ r s. Any s)
  unfolding ata_enable_smart ◌>>=◌
  ata_enable_smart-runs fd = record { at = λ s q. tt }

  pub print-runs : (text : Bytes) → Ensures Any (print {W = W × List Request} text) (λ r s. Any s)
  unfolding print
  print-runs text = record { at = λ s q. tt }

  pub close_disk-Fate :
      (dsk : Disk) → Ensures (Quiet H) (close_disk (logged k) dsk) (λ dsk' s. dsk'.fd ≡ none)
  unfolding close_disk
  close_disk-Fate dsk = record { at = λ s q. refl }

  pub ata_get_powermode-Quiet :
      (fd : Option ℕ)
      → ((req : Request) → IsPowerMode fd req → H req)
      → Ensures (Quiet H) (ata_get_powermode (logged k) fd) (λ m s. Quiet H s)
  unfolding ata_get_powermode
  ata_get_powermode-Quiet fd h =
      Ensures-bind (ioctl-Quiet (hdio_drive_cmd fd (0xe5 ∷ 0 ∷ 0 ∷ 0 ∷ [])) (h _ (refl, inl refl)))
        λ first.
          Ensures-if (first.ret == 0) (λ _. Ensures-pure _ (λ s q. q))
            (λ _.
              Ensures-bind
                (ioctl-Quiet (hdio_drive_cmd fd (0x98 ∷ drop 1 first.content))
                  (h _ (refl, inr refl)))
                λ second. Ensures-bind get_errno-Quiet λ errno. Ensures-pure _ (λ s q. q))

  pub enable_failure-Fate :
      (flags : Flags) (dsk : Disk) → Ensures Any (enable_failure (logged k) dsk) (Fate H flags dsk)
  unfolding enable_failure ◌>>=◌
  enable_failure-Fate flags dsk = record {
    at = λ s q. elim (Bool-cases (s.errno == eio)) [ inl e ↦ rw e refl | inr e ↦ rw e refl ];
  }

  pub read_failure-Fate :
      (flags : Flags) (dsk : Disk) → Ensures Any (read_failure (logged k) dsk) (Fate H flags dsk)
  unfolding read_failure ◌>>=◌
  read_failure-Fate flags dsk = record { at = λ s q. refl }

  pub value-Fate :
      (flags : Flags) (dsk : Disk) (value : ℤ) (s : Sys (W × List Request))
      → Fate H flags dsk
          (if is_minus_one value then unknown else known, record dsk { value = value })
          s
  value-Fate flags dsk value s = elim (Bool-cases (is_minus_one value)) [
    | inl e ↦ rw e (refl, e)
    | inr e ↦ rw e (refl, e)
  ]

module _ {W : Type 0} (k : Kernel W) where
  ata_read_value-Fate :
      (flags : Flags) (e : HarddriveEntry) (dsk : Disk)
      → Ensures Any (ata_read_value (logged k) flags e dsk) (Fate (IsHarmless dsk.fd) flags dsk)
  unfolding ata_read_value
  ata_read_value-Fate flags e dsk =
      Ensures-bind (ata_get_smart_values-runs (IsHarmless dsk.fd) k dsk.fd) λ smart.
        Ensures-if (not (smart.0 == 0)) (λ _. read_failure-Fate (IsHarmless dsk.fd) k flags dsk)
          (λ _. Ensures-bind (print-runs (IsHarmless dsk.fd) k _) λ _. Ensures-pure _ (λ s q.
            value-Fate (IsHarmless dsk.fd) k flags dsk
              (new_value dsk.value (swap_words 256 smart.1)
                (ata_search_temperature flags.debug (swap_words 256 smart.1) e.attribute_id).0)
              s))

  ata_awake-Fate :
      (flags : Flags) (e : HarddriveEntry) (dsk : Disk)
      → Ensures
          (Quiet (IsHarmless dsk.fd))
          (ata_awake (logged k) flags e dsk)
          (Fate (IsHarmless dsk.fd) flags dsk)
  unfolding ata_awake
  ata_awake-Fate flags e dsk =
      Ensures-bind (ata_get_powermode-Quiet (IsHarmless dsk.fd) k dsk.fd (λ req. inr)) λ mode.
        Ensures-if (sleeps mode && not flags.wakeup)
          (λ h. Ensures-pure _ (λ s q. (refl, ground arith, q)))
          (λ _. Ensures-bind (ata_enable_smart-runs (IsHarmless dsk.fd) k dsk.fd) λ ret.
            Ensures-if (not (ret == 0)) (λ _. enable_failure-Fate (IsHarmless dsk.fd) k flags dsk)
              (λ _. ata_read_value-Fate flags e dsk))

  ata_with_entry-Fate :
      (flags : Flags) (e : HarddriveEntry) (dsk : Disk)
      → Ensures
          (Quiet (IsHarmless dsk.fd))
          (ata_with_entry (logged k) flags e dsk)
          (Fate (IsHarmless dsk.fd) flags dsk)
  unfolding ata_with_entry
  ata_with_entry-Fate flags e dsk =
      Ensures-if (e.attribute_id == 0)
        (λ _.
          Ensures-bind (close_disk-Fate (IsHarmless dsk.fd) k dsk)
            λ dsk'. Ensures-pure _ (λ s q. q))
        (λ _. Ensures-bind (ata_get_packet-Quiet (IsHarmless dsk.fd) k dsk.fd (inl refl)) λ packet.
          Ensures-if packet (λ _. Ensures-pure _ (λ s q. refl)) (λ _. ata_awake-Fate flags e dsk))

  -- From a state with no request made, `ata_get_temperature` on a disk with a database entry
  -- returns. With each result: an error or a missing sensor, the disk is closed; not applicable, the
  -- text says so; known or unknown, the disk stays open and its value is not -1, or is -1; asleep,
  -- the disk is as before, waking was not asked for, and no request was made but of this drive, for its
  -- identity and its power mode.
  pub ata_get_temperature-Fate :
      (flags : Flags) (dsk : Disk) (e : HarddriveEntry) (s : Sys (W × List Request))
      → dsk.db_entry ≡ some e
      → s.world.1 ≡ []
      → Post (Fate (IsHarmless dsk.fd) flags dsk) (ata_get_temperature (logged k) flags dsk s)
  unfolding ata_get_temperature
  ata_get_temperature-Fate flags dsk e s h q =
      subst (λ o. Post (Fate (IsHarmless dsk.fd) flags dsk) (from_entry (logged k) flags dsk o s))
        (sym h) ((ata_with_entry-Fate flags e dsk).at s (rw q tt))
