-- ===== src/Collect/Rounds.antt =====
-- src/hddtemp.c: what a round of the loop that collects the disks does, whichever way it goes, and so
-- what the loop does.
use hddtemp.Prelude.{
  arith, ℕ, Bool, true, false, Option, none, some, List, [], ◌∷◌, ◌≡◌, ◌≢◌, refl, ◌⊎◌, inl, inr,
  Bytes,
}
use hddtemp.Prelude.Int.{negsuc}
use hddtemp.Db.{HarddriveEntry}
use hddtemp.Db.Load.{
  Loaded, loaded, cannot_open, bad_line, line_too_long, buffer_overrun, out_of_fuel, load_database,
}
use hddtemp.Db.Load.Spec.{IsSafeLoad}
use hddtemp.Db.Lookup.{Lookup, found, unsupported, bad_regexp}
use hddtemp.Device.{
  BusType, error, bus_unknown, bus_sata, bus_ata, bus_scsi, Disk, gettemp_error, Kernel, ◌>>=◌,
}
use hddtemp.Device.Ensures.{Ensures, Ensures-bind, Ensures-pure}
use hddtemp.Device.Kept.{IsServed, Any, Runs, Runs-get_errno, Ensures-given}
use hddtemp.Smart.Small.{IsSmall}
use hddtemp.Hddtemp.{bus_model}
use hddtemp.Hddtemp.Served.{Runs-eprint}
use hddtemp.Hddtemp.Probe.{probe_bus_type-known}
use hddtemp.Collect.{
  Collecting, Round, next, exit, with_found, default_entry, parse_argument, new_disk, open_disk,
  look_up, drives_of, finish_disk, with_bus, disk_bus, with_fd, collect_disk,
}

-- The model, where there is one.
abbrev pub IsModel : (Bytes → Type 0) → Option Bytes → Type 0
IsModel M none = Unit {0}
IsModel M (some model) = M model

-- A disk as the loop leaves it: `drive` its name, its model, if it has one, as `M` says.
pub record Collected (M : Bytes → Type 0) (drive : Bytes) (dsk : Disk) : Type 0 where
  pub named : dsk.drive ≡ drive
  pub served : IsServed dsk
  pub unasked : dsk.ret ≡ gettemp_error
  pub small : IsSmall dsk.value
  pub is_model : IsModel M dsk.model

-- A round ends the program, drops the disk and fails, or puts the disk in front of the others.
abbrev pub Adds : (Bytes → Type 0) → Bytes → Collecting → Round → Type 0
Adds M drive st (next st') =
    ((st'.failed ≡ true) × (st'.disks ≡ st.disks))
    ⊎ ((dsk : Disk) × (Collected M drive dsk
          × (st'.disks ≡ dsk ∷ st.disks)
          × (st'.failed ≡ false → st.failed ≡ false)))
Adds M drive st (exit status) = (status ≡ 2) ⊎ (status ≡ 254)

abbrev pub drive_of : Bytes → Bytes
drive_of arg = (parse_argument arg).1

module _ (M : Bytes → Type 0) where
  with_found-Adds :
      (st : Collecting) (dsk : Disk) (drives : List HarddriveEntry) (l : Lookup)
      → ((e : HarddriveEntry) → Collected M dsk.drive (record dsk { db_entry = some e }))
      → Adds M dsk.drive st (with_found st dsk drives l)
  with_found-Adds st dsk drives (found e) h = inr (_, (h e, refl, λ q. q))
  with_found-Adds st dsk drives unsupported h = inr (_, (h default_entry, refl, λ q. q))
  with_found-Adds st dsk drives bad_regexp h = inr refl

  module _ {W R F : Type 0} (k : Kernel W) (open_file : Bytes → W → (Option ℕ × ℕ) × W)
      (regcomp : Bytes → Option R) (regexec : R → Bytes → Bool) (read : ℕ → F → Bytes × F)
      (fuel : ℕ) (garbage : Bytes) (file : Option F) where
    look_up-Adds :
        (st : Collecting) (dsk : Disk) (model : Bytes) (l : Loaded)
        → IsSafeLoad l
        → ((e : HarddriveEntry) → Collected M dsk.drive (record dsk { db_entry = some e }))
        → Ensures Any
            (look_up k open_file regcomp regexec read fuel garbage file st dsk model l)
            (λ round s. Adds M dsk.drive st round)
    unfolding look_up
    look_up-Adds st dsk model (loaded drives) i h =
        Ensures-pure _ (λ s q. with_found-Adds st dsk drives _ h)
    look_up-Adds st dsk model cannot_open i h = Ensures-pure _ (λ s q. inl refl)
    look_up-Adds st dsk model (bad_line n) i h = Ensures-pure _ (λ s q. inl refl)
    look_up-Adds st dsk model line_too_long i h = Ensures-pure _ (λ s q. inl refl)
    look_up-Adds st dsk model buffer_overrun i h = absurd i
    look_up-Adds st dsk model out_of_fuel i h = absurd i

    -- An opened disk of the type, with its model.
    abbrev opened : Disk → BusType → ℕ → Bytes → Disk
    opened dsk bus fd model = record dsk {
      fd = some fd;
      bus = bus;
      model = some model;
      value = negsuc 0;
    }

    -- The models that the drivers read are as `M` says.
    abbrev pub HasModelsOf : Type 0
    HasModelsOf =
        (bus : BusType) (fd : ℕ)
        → bus ≢ error
        → bus ≢ bus_unknown
        → Ensures Any (bus_model k bus (some fd)) (λ model s. M model)

    -- The database is read without a step behind the loader's buffer.
    abbrev pub HasSafeLoad : Type 0
    HasSafeLoad = IsSafeLoad (load_database read fuel garbage file [])

    module _ (loads : HasSafeLoad) where
      drives_of-IsSafeLoad :
          (drives : Option (List HarddriveEntry))
          → IsSafeLoad (drives_of k open_file regcomp regexec read fuel garbage file drives)
      unfolding drives_of
      drives_of-IsSafeLoad none = loads
      drives_of-IsSafeLoad (some drives) = tt

      finish_disk-Adds :
          (bus : BusType) (st : Collecting) (dsk : Disk) (fd : ℕ) (model : Bytes)
          → bus ≢ error
          → bus ≢ bus_unknown
          → dsk.ret ≡ gettemp_error
          → M model
          → Ensures Any
              (finish_disk k open_file regcomp regexec read fuel garbage file bus st
                (opened dsk bus fd model)
                model)
              (λ round s. Adds M dsk.drive st round)
      unfolding finish_disk
      finish_disk-Adds error st dsk fd model n u q m = absurd (n refl)
      finish_disk-Adds bus_unknown st dsk fd model n u q m = absurd (u refl)
      finish_disk-Adds bus_sata st dsk fd model n u q m =
          look_up-Adds st (opened dsk bus_sata fd model) model _ (drives_of-IsSafeLoad st.drives)
            (λ e. record {
              named = refl;
              served = (tt, tt);
              unasked = q;
              small = refl;
              is_model = m;
            })
      finish_disk-Adds bus_ata st dsk fd model n u q m =
          look_up-Adds st (opened dsk bus_ata fd model) model _ (drives_of-IsSafeLoad st.drives)
            (λ e. record {
              named = refl;
              served = (tt, tt);
              unasked = q;
              small = refl;
              is_model = m;
            })
      finish_disk-Adds bus_scsi st dsk fd model n u q m = Ensures-pure _ (λ s z. inr (
        _,
        (
          record { named = refl; served = tt; unasked = q; small = refl; is_model = m },
          refl,
          λ e. e,
        ),
      ))

    module _ (loads : HasSafeLoad) (models : HasModelsOf) where
      with_model-Adds :
          (bus : BusType) (st : Collecting) (dsk : Disk) (fd : ℕ)
          → bus ≢ error
          → bus ≢ bus_unknown
          → dsk.ret ≡ gettemp_error
          → Ensures Any
              (bus_model k bus (some fd) >>= λ model.
                finish_disk k open_file regcomp regexec read fuel garbage file bus st
                  (opened dsk bus fd model)
                  model)
              (λ round s. Adds M dsk.drive st round)
      with_model-Adds bus st dsk fd n u q =
          Ensures-bind (models bus fd n u)
            λ model. Ensures-given λ m. finish_disk-Adds loads bus st dsk fd model n u q m

      with_bus-Adds :
          (bus : BusType) (st : Collecting) (dsk : Disk) (fd : ℕ)
          → bus ≢ error
          → dsk.ret ≡ gettemp_error
          → Ensures Any
              (with_bus k open_file regcomp regexec read fuel garbage file bus st
                (record dsk { fd = some fd; bus = bus }))
              (λ round s. Adds M dsk.drive st round)
      unfolding with_bus
      with_bus-Adds error st dsk fd n q = absurd (n refl)
      with_bus-Adds bus_unknown st dsk fd n q =
          Ensures-bind (Runs-eprint _) λ _. Ensures-pure _ (λ s z. inl (refl, refl))
      with_bus-Adds bus_sata st dsk fd n q = with_model-Adds bus_sata st dsk fd n (λ e. cc) q
      with_bus-Adds bus_ata st dsk fd n q = with_model-Adds bus_ata st dsk fd n (λ e. cc) q
      with_bus-Adds bus_scsi st dsk fd n q = with_model-Adds bus_scsi st dsk fd n (λ e. cc) q

      disk_bus-known :
          (bus : BusType) (fd : Option ℕ)
          → Ensures Any
              (disk_bus k open_file regcomp regexec read fuel garbage file bus fd)
              (λ b s. b ≢ error)
      unfolding disk_bus
      disk_bus-known error fd = probe_bus_type-known k fd
      disk_bus-known bus_unknown fd = Ensures-pure _ (λ s q e. cc)
      disk_bus-known bus_sata fd = Ensures-pure _ (λ s q e. cc)
      disk_bus-known bus_ata fd = Ensures-pure _ (λ s q e. cc)
      disk_bus-known bus_scsi fd = Ensures-pure _ (λ s q e. cc)

      with_fd-Adds :
          (fd : Option ℕ) (st : Collecting) (bus : BusType) (drive : Bytes)
          → Ensures Any
              (with_fd k open_file regcomp regexec read fuel garbage file fd st
                (new_disk bus drive))
              (λ round s. Adds M drive st round)
      unfolding with_fd
      with_fd-Adds none st bus drive = Ensures-bind Runs-get_errno λ errno. Ensures-pure _ (λ s q.
          inr (
            _,
            (
              record {
                named = refl;
                served = tt;
                unasked = refl;
                small = omega (arith);
                is_model = tt;
              },
              refl,
              λ e. cc,
            ),
          ))
      with_fd-Adds (some fd) st bus drive =
          Ensures-bind (disk_bus-known bus (some fd))
            λ b. Ensures-given λ n. with_bus-Adds b st (new_disk bus drive) fd n refl

      open_disk-Runs :
          (drive : Bytes)
          → Runs (open_disk k open_file regcomp regexec read fuel garbage file drive)
      unfolding open_disk
      open_disk-Runs drive = record { at = λ s q. tt }

      pub collect_disk-Adds :
          (st : Collecting) (arg : Bytes)
          → Ensures Any
              (collect_disk k open_file regcomp regexec read fuel garbage file st arg)
              (λ round s. Adds M (drive_of arg) st round)
      unfolding collect_disk
      collect_disk-Adds st arg =
          Ensures-bind (open_disk-Runs _)
            λ fd. with_fd-Adds fd st (parse_argument arg).0 (parse_argument arg).1
