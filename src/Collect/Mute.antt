-- ===== src/Collect/Mute.antt =====
-- src/hddtemp.c: collecting the disks prints nothing on the standard output.
use hddtemp.Prelude.{
  ℕ, Bool, true, false, not, Option, none, some, List, [], ◌∷◌, ◌≡◌, ◌==◌, refl, Bytes, drop,
  if◌then◌else◌,
}
use hddtemp.Prelude.Int.{negsuc}
use hddtemp.Db.Load.{
  Loaded, loaded, cannot_open, bad_line, line_too_long, buffer_overrun, out_of_fuel,
}
use hddtemp.Device.{
  BusType, error, bus_unknown, bus_sata, bus_ata, bus_scsi, Disk, Kernel, Sys, Dev, ◌>>=◌, pure,
  crash, strdup, string_at,
}
use hddtemp.Device.Ensures.{Post, Ensures}
use hddtemp.Device.Kept.{Any}
use hddtemp.Device.Silent.{Says, Silent, Silent-pure, Silent-get_errno, Silent-ioctl, Silent-eprint}
use hddtemp.Scsi.Silent.{scsi_inquiry-Silent}
use hddtemp.Sata.Silent.{sata_pass_thru-Silent}
use hddtemp.Ata.{ata_probe, ata_model}
use hddtemp.Sata.{sata_probe, sata_model, is_ata, identify_cmd}
use hddtemp.Scsi.{scsi_probe, scsi_model}
use hddtemp.Hddtemp.{probe_bus_type, bus_model}
use hddtemp.Collect.{
  Collecting, Round, next, exit, open_disk, look_up, finish_disk, disk_bus, with_bus, with_fd,
  collect_disk, collect_next, collect,
}

module _ {W : Type 0} (out : Bytes) where
  abbrev IfEnds : {A : Type 0} → Option (A × Sys W) → Type 0
  IfEnds none = Unit {0}
  IfEnds (some (a, s)) = s.stdout ≡ out

  -- If the action returns, it has printed nothing.
  pub record Mute {A : Type 0} (m : Dev W A) : Type 0 where
    pub at : (s : Sys W) → s.stdout ≡ out → IfEnds (m s)

  Post-IfEnds : {A : Type 0} (r : Option (A × Sys W)) → Post (λ a s. Says out s) r → IfEnds r
  Post-IfEnds none h = tt
  Post-IfEnds (some (a, s)) h = h

  Silent-Mute : {A : Type 0} {m : Dev W A} → Silent out m → Mute m
  Silent-Mute {m} h = record { at = λ s q. Post-IfEnds (m s) (h.at s q) }

  bind-IfEnds :
      {A B : Type 0} (f : A → Dev W B) (m : Dev W A) (s : Sys W) (r : Option (A × Sys W))
      → m s ≡ r
      → IfEnds r
      → ((a : A) → Mute (f a))
      → IfEnds ((m >>= f) s)
  unfolding ◌>>=◌
  bind-IfEnds f m s none e h g = rw (e, ◌>>=◌) tt
  bind-IfEnds f m s (some (a, s')) e h g = rw (e, ◌>>=◌) ((g a).at s' h)

  Mute-bind :
      {A B : Type 0} {m : Dev W A} {f : A → Dev W B}
      → Mute m
      → ((a : A) → Mute (f a))
      → Mute (m >>= f)
  Mute-bind {m} {f} h g = record { at = λ s q. bind-IfEnds f m s (m s) refl (h.at s q) g }

  Mute-if : {A : Type 0} (b : Bool) {m n : Dev W A} → Mute m → Mute n → Mute (if b then m else n)
  Mute-if true hm hn = hm
  Mute-if false hm hn = hn

  Mute-pure : {A : Type 0} (a : A) → Mute (pure a)
  Mute-pure a = Silent-Mute (Silent-pure out a)

  Mute-crash : {A : Type 0} → Mute {A = A} crash
  unfolding crash
  Mute-crash = record { at = λ s q. tt }

  Mute-strdup : (m : Bytes) → Mute (strdup m)
  unfolding strdup
  Mute-strdup m = record { at = λ s q. text (string_at m) s q }
    where
      text :
          (o : Option Bytes) (s : Sys W)
          → s.stdout ≡ out
          → IfEnds (elim o [ none ↦ none | some t ↦ some (t, s) ])
      text none s q = tt
      text (some t) s q = q

  both :
      {A : Type 0} (P : A → Sys W → Type 0) (r : Option (A × Sys W))
      → Post P r
      → IfEnds r
      → Post (λ a s. P a s × Says out s) r
  both P none p h = absurd p
  both P (some (a, s)) p h = (p, h)

  -- An action that returns, and prints nothing if it does.
  pub Mute-Ensures :
      {A : Type 0} {P : A → Sys W → Type 0} {m : Dev W A}
      → Mute m
      → Ensures Any m P
      → Ensures (Says out) m (λ a s. P a s × Says out s)
  Mute-Ensures {P} {m} h e = record { at = λ s q. both P (m s) (e.at s tt) (h.at s q) }

  module _ (k : Kernel W) where
    model-Mute : (bus : BusType) (fd : ℕ) → Mute (bus_model k bus (some fd))
    unfolding bus_model ata_model sata_model scsi_model
    model-Mute error fd = Mute-crash
    model-Mute bus_unknown fd = Mute-crash
    model-Mute bus_sata fd =
        Mute-bind (Silent-Mute (sata_pass_thru-Silent out k (some fd) identify_cmd))
          λ r. Mute-if (not (r.0 == 0)) (Mute-pure _) (Mute-strdup _)
    model-Mute bus_ata fd =
        Mute-bind (Silent-Mute (Silent-ioctl out k _))
          λ r. Mute-if (not (r.ret == 0)) (Mute-pure _) (Mute-strdup _)
    model-Mute bus_scsi fd =
        Mute-bind (Silent-Mute (scsi_inquiry-Silent out k (some fd)))
          λ r. Mute-if (not (r.0 == 0)) (Mute-pure _) (Mute-strdup _)

    sata_probe-Mute : (fd : ℕ) → Mute (sata_probe k (some fd))
    unfolding sata_probe
    sata_probe-Mute fd = Mute-bind (Silent-Mute (Silent-ioctl out k _)) λ bus.
        Mute-if (not (bus.ret == 0)) (Mute-pure _) (
          Mute-bind (Silent-Mute (scsi_inquiry-Silent out k (some fd))) λ r.
            Mute-if (not (r.0 == 0)) (Mute-pure _) (
              Mute-if (not (is_ata (drop 8 r.1))) (Mute-pure _) (
                Mute-bind (Silent-Mute (sata_pass_thru-Silent out k (some fd) identify_cmd))
                  λ p. Mute-pure _)))

    probe-Mute : (fd : ℕ) → Mute (probe_bus_type k (some fd))
    unfolding probe_bus_type ata_probe scsi_probe
    probe-Mute fd = Mute-bind (sata_probe-Mute fd) λ sata. Mute-if sata (Mute-pure _) (
        Mute-bind (Mute-bind (Silent-Mute (Silent-ioctl out k _)) λ r. Mute-pure _) λ ata.
          Mute-if ata (Mute-pure _) (
            Mute-bind (Mute-bind (Silent-Mute (Silent-ioctl out k _)) λ r. Mute-pure _)
              λ scsi. Mute-pure _))

    module _ {R F : Type 0} (open_file : Bytes → W → (Option ℕ × ℕ) × W)
        (regcomp : Bytes → Option R) (regexec : R → Bytes → Bool) (read : ℕ → F → Bytes × F)
        (fuel : ℕ) (garbage : Bytes) (file : Option F) where
      look_up-Mute :
          (st : Collecting) (dsk : Disk) (model : Bytes) (l : Loaded)
          → Mute (look_up k open_file regcomp regexec read fuel garbage file st dsk model l)
      unfolding look_up
      look_up-Mute st dsk model (loaded drives) = Mute-pure _
      look_up-Mute st dsk model cannot_open = Mute-pure _
      look_up-Mute st dsk model (bad_line n) = Mute-pure _
      look_up-Mute st dsk model line_too_long = Mute-pure _
      look_up-Mute st dsk model buffer_overrun = Mute-crash
      look_up-Mute st dsk model out_of_fuel = Mute-crash

      finish_disk-Mute :
          (bus : BusType) (st : Collecting) (dsk : Disk) (model : Bytes)
          → Mute (finish_disk k open_file regcomp regexec read fuel garbage file bus st dsk model)
      unfolding finish_disk
      finish_disk-Mute error st dsk model = look_up-Mute st dsk model _
      finish_disk-Mute bus_unknown st dsk model = look_up-Mute st dsk model _
      finish_disk-Mute bus_sata st dsk model = look_up-Mute st dsk model _
      finish_disk-Mute bus_ata st dsk model = look_up-Mute st dsk model _
      finish_disk-Mute bus_scsi st dsk model = Mute-pure _

      -- An opened disk of the type, with its model.
      abbrev opened : Disk → BusType → ℕ → Bytes → Disk
      opened dsk bus fd model = record dsk {
        fd = some fd;
        bus = bus;
        model = some model;
        value = negsuc 0;
      }

      with_bus-Mute :
          (bus : BusType) (st : Collecting) (dsk : Disk) (fd : ℕ)
          → Mute (
              with_bus k open_file regcomp regexec read fuel garbage file bus st
                (record dsk { fd = some fd; bus = bus }))
      unfolding with_bus
      with_bus-Mute error st dsk fd =
          Mute-bind (model-Mute error fd) λ m. finish_disk-Mute error st (opened dsk error fd m) m
      with_bus-Mute bus_unknown st dsk fd =
          Mute-bind (Silent-Mute (Silent-eprint out _)) λ _. Mute-pure _
      with_bus-Mute bus_sata st dsk fd =
          Mute-bind (model-Mute bus_sata fd)
            λ m. finish_disk-Mute bus_sata st (opened dsk bus_sata fd m) m
      with_bus-Mute bus_ata st dsk fd =
          Mute-bind (model-Mute bus_ata fd)
            λ m. finish_disk-Mute bus_ata st (opened dsk bus_ata fd m) m
      with_bus-Mute bus_scsi st dsk fd =
          Mute-bind (model-Mute bus_scsi fd)
            λ m. finish_disk-Mute bus_scsi st (opened dsk bus_scsi fd m) m

      disk_bus-Mute :
          (bus : BusType) (fd : ℕ)
          → Mute (disk_bus k open_file regcomp regexec read fuel garbage file bus (some fd))
      unfolding disk_bus
      disk_bus-Mute error fd = probe-Mute fd
      disk_bus-Mute bus_unknown fd = Mute-pure _
      disk_bus-Mute bus_sata fd = Mute-pure _
      disk_bus-Mute bus_ata fd = Mute-pure _
      disk_bus-Mute bus_scsi fd = Mute-pure _

      with_fd-Mute :
          (fd : Option ℕ) (st : Collecting) (dsk : Disk)
          → Mute (with_fd k open_file regcomp regexec read fuel garbage file fd st dsk)
      unfolding with_fd
      with_fd-Mute none st dsk = Mute-bind (Silent-Mute (Silent-get_errno out)) λ errno. Mute-pure _
      with_fd-Mute (some fd) st dsk =
          Mute-bind (disk_bus-Mute dsk.bus fd) λ bus. with_bus-Mute bus st dsk fd

      open_disk-Mute :
          (drive : Bytes)
          → Mute (open_disk k open_file regcomp regexec read fuel garbage file drive)
      unfolding open_disk
      open_disk-Mute drive = record { at = λ s q. q }

      collect_next-Mute :
          (round : Round) (rest : Collecting → Dev W Round)
          → ((st : Collecting) → Mute (rest st))
          → Mute (collect_next k open_file regcomp regexec read fuel garbage file round rest)
      unfolding collect_next
      collect_next-Mute (next st) rest h = h st
      collect_next-Mute (exit status) rest h = Mute-pure _

      pub collect-Mute :
          (args : List Bytes) (st : Collecting)
          → Mute (collect k open_file regcomp regexec read fuel garbage file args st)
      unfolding collect collect_disk
      collect-Mute [] st = Mute-pure _
      collect-Mute (arg ∷ args) st =
          Mute-bind (Mute-bind (open_disk-Mute _) λ fd. with_fd-Mute fd st _)
            λ round. collect_next-Mute round _ (collect-Mute args)
