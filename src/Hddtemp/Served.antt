-- ===== src/Hddtemp/Served.antt =====
-- The disks that the program has collected can be asked and shown: no action on them crashes.
use mathlib.Core.Path.{subst}
use hddtemp.Prelude.{
  Option, none, some, List, [], ◌∷◌, ◌≡◌, ◌≢◌, refl, sym, ◌∙◌, Bytes, if◌then◌else◌, ◌&&◌,
}
use hddtemp.Device.{
  BusType, error, bus_unknown, bus_sata, bus_ata, bus_scsi, Disk, GetTemp, gettemp_error,
  not_applicable, unknown, known, no_sensor, drive_sleep, Flags, Kernel, Sys, Dev, ◌>>=◌, pure,
  print, eprint,
}
use hddtemp.Device.Ensures.{Post, Ensures, Ensures-bind, Ensures-if, Ensures-pure, Ensures-weaken}
use hddtemp.Device.Kept.{
  IsSome, IsSome-some, IsServed, ServedOn, Kept, Any, Runs, Runs-pure, Runs-print, Ensures-given,
}
use hddtemp.Ata.Kept.{ata_get_temperature-Kept}
use hddtemp.Sata.Kept.{sata_get_temperature-Kept}
use hddtemp.Scsi.Kept.{scsi_get_temperature-Kept}
use hddtemp.Units.{Scale, default_unit, celsius, fahrenheit, value_to_unit, get_unit}
use hddtemp.Hddtemp.{
  Output, flags_of, deref, bus_get_temperature, query, zero_or, show_result, show_known,
  show_outcome, show_banner, display_temperature, display_all, do_direct_mode, debug_banner,
}

-- A disk that can be shown with the result.
abbrev pub Shown : GetTemp → Disk → Type 0
Shown gettemp_error dsk = Unit {0}
Shown ret dsk = IsSome dsk.model × IsSome dsk.db_entry

-- What a query leaves of a disk: its drive, model and type, ready to be shown and to be asked again.
pub record Answered (dsk : Disk) (r : GetTemp × Disk) : Type 0 where
  pub drive : r.1.drive ≡ dsk.drive
  pub model : r.1.model ≡ dsk.model
  pub bus : r.1.bus ≡ dsk.bus
  pub served : IsServed r.1
  pub shown : Shown r.0 r.1

Shown-all : (ret : GetTemp) (dsk : Disk) → IsSome dsk.model → IsSome dsk.db_entry → Shown ret dsk
Shown-all gettemp_error dsk m e = tt
Shown-all not_applicable dsk m e = (m, e)
Shown-all unknown dsk m e = (m, e)
Shown-all known dsk m e = (m, e)
Shown-all no_sensor dsk m e = (m, e)
Shown-all drive_sleep dsk m e = (m, e)

ServedOn-all :
    (b : BusType) (dsk : Disk)
    → b ≢ bus_unknown
    → IsSome dsk.model
    → IsSome dsk.db_entry
    → ServedOn b dsk
ServedOn-all error dsk n m e = tt
ServedOn-all bus_unknown dsk n m e = absurd (n refl)
ServedOn-all bus_sata dsk n m e = (m, e)
ServedOn-all bus_ata dsk n m e = (m, e)
ServedOn-all bus_scsi dsk n m e = m

Kept-Answered :
    (dsk : Disk) (r : GetTemp × Disk)
    → dsk.bus ≢ bus_unknown
    → IsSome dsk.model
    → Kept dsk r.1
    → Answered dsk r
Kept-Answered dsk r n m h = record {
  drive = h.drive;
  model = h.model;
  bus = h.bus;
  served = ServedOn-all r.1.bus r.1 (λ q. n (sym h.bus ∙ q)) (rw h.model m) h.has_entry;
  shown = Shown-all r.0 r.1 (rw h.model m) h.has_entry;
}

module _ {W : Type 0} (k : Kernel W) where
  pub query-Answered :
      (flags : Flags) (b : BusType) (dsk : Disk)
      → dsk.bus ≡ b
      → ServedOn b dsk
      → Ensures Any (query k flags b dsk) (λ r s. Answered dsk r)
  unfolding query bus_get_temperature
  query-Answered flags error dsk q h =
      Ensures-pure _
        (λ s _. record { drive = refl; model = refl; bus = refl; served = rw q tt; shown = tt })
  query-Answered flags bus_unknown dsk q h = absurd h
  query-Answered flags bus_sata dsk q h =
      Ensures-weaken (sata_get_temperature-Kept k flags dsk h.1)
        λ r s kept. Kept-Answered dsk r (λ e. cc) h.0 kept
  query-Answered flags bus_ata dsk q h =
      Ensures-weaken (ata_get_temperature-Kept k flags dsk h.1)
        λ r s kept. Kept-Answered dsk r (λ e. cc) h.0 kept
  query-Answered flags bus_scsi dsk q h =
      Ensures-weaken (scsi_get_temperature-Kept k dsk)
        λ r s kept. Kept-Answered dsk r (λ e. cc) h kept

pub deref-Runs : {W A : Type 0} (o : Option A) → IsSome o → Runs (deref {W = W} o)
deref-Runs none h = absurd h
deref-Runs (some a) h = Runs-pure a

pub Runs-eprint : {W : Type 0} (text : Bytes) → Runs (eprint {W = W} text)
unfolding eprint
Runs-eprint text = record { at = λ s q. tt }

zero_or-Runs : {W : Type 0} (o : Output) (m : Dev W (Unit {0})) → Runs m → Runs (zero_or o m)
unfolding zero_or
zero_or-Runs o m h = Ensures-if (o.numeric && o.quiet) (λ _. Runs-print _) (λ _. h)

pub value_to_unit-IsSome :
    (scale : Scale) (dsk : Disk) → IsSome dsk.db_entry → IsSome (value_to_unit scale dsk)
unfolding value_to_unit
value_to_unit-IsSome default_unit dsk h = tt
value_to_unit-IsSome celsius dsk h = rw (IsSome-some dsk.db_entry h).1 tt
value_to_unit-IsSome fahrenheit dsk h = rw (IsSome-some dsk.db_entry h).1 tt

pub get_unit-IsSome :
    (scale : Scale) (dsk : Disk) → IsSome dsk.db_entry → IsSome (get_unit scale dsk)
unfolding get_unit
get_unit-IsSome default_unit dsk h = rw (IsSome-some dsk.db_entry h).1 tt
get_unit-IsSome celsius dsk h = tt
get_unit-IsSome fahrenheit dsk h = tt

module _ {W : Type 0} where
  show_result-Runs :
      (o : Output) (dsk : Disk) (model : Bytes) (ret : GetTemp)
      → IsSome dsk.db_entry
      → Runs {W = W} (show_result o dsk model ret)
  unfolding show_result
  show_result-Runs o dsk model gettemp_error h = Runs-pure _
  show_result-Runs o dsk model not_applicable h = zero_or-Runs o _ (Runs-print _)
  show_result-Runs o dsk model unknown h =
      Ensures-bind (Ensures-if o.quiet (λ _. Runs-pure _) (λ _. Runs-eprint _))
        λ _. zero_or-Runs o _ (Runs-eprint _)
  show_result-Runs o dsk model known h =
      Ensures-bind (deref-Runs _ (value_to_unit-IsSome o.unit dsk h)) λ value.
        Ensures-if o.numeric (λ _. Runs-print _)
          (λ _. Ensures-bind (deref-Runs _ (get_unit-IsSome o.unit dsk h)) λ unit. Runs-print _)
  show_result-Runs o dsk model drive_sleep h = zero_or-Runs o _ (Runs-eprint _)
  show_result-Runs o dsk model no_sensor h = zero_or-Runs o _ (Runs-eprint _)

  show_known-Runs :
      (o : Output) (ret : GetTemp) (dsk : Disk)
      → IsSome dsk.model × IsSome dsk.db_entry
      → Ensures {W = W} Any (show_known o ret dsk) (λ d s. d ≡ dsk)
  unfolding show_known
  show_known-Runs o ret dsk h =
      Ensures-if o.debug (λ _. Ensures-pure _ (λ s q. refl))
        (λ _. Ensures-bind (deref-Runs _ h.0) λ model.
          Ensures-bind (show_result-Runs o dsk model ret h.1) λ _. Ensures-pure _ (λ s q. refl))

  show_outcome-Runs :
      (o : Output) (ret : GetTemp) (dsk : Disk)
      → Shown ret dsk
      → Ensures {W = W} Any (show_outcome o (ret, dsk)) (λ d s. d ≡ dsk)
  unfolding show_outcome
  show_outcome-Runs o gettemp_error dsk h =
      Ensures-bind (Runs-eprint _) λ _. Ensures-pure _ (λ s q. refl)
  show_outcome-Runs o not_applicable dsk h = show_known-Runs o not_applicable dsk h
  show_outcome-Runs o unknown dsk h = show_known-Runs o unknown dsk h
  show_outcome-Runs o known dsk h = show_known-Runs o known dsk h
  show_outcome-Runs o no_sensor dsk h = show_known-Runs o no_sensor dsk h
  show_outcome-Runs o drive_sleep dsk h = show_known-Runs o drive_sleep dsk h

  banner-Runs :
      (o : Output) (dsk : Disk)
      → IsSome dsk.model
      → Runs {W = W}
          (if o.debug then deref dsk.model >>= (λ model. print (debug_banner o model)) else pure tt)
  banner-Runs o dsk h =
      Ensures-if o.debug (λ _. Ensures-bind (deref-Runs _ h) λ model. Runs-print _)
        (λ _. Runs-pure _)

  show_banner-Runs :
      (o : Output) (b : BusType) (dsk : Disk) → ServedOn b dsk → Runs {W = W} (show_banner o b dsk)
  unfolding show_banner
  show_banner-Runs o error dsk h = Runs-pure _
  show_banner-Runs o bus_unknown dsk h = absurd h
  show_banner-Runs o bus_sata dsk h = banner-Runs o dsk h.0
  show_banner-Runs o bus_ata dsk h = banner-Runs o dsk h.0
  show_banner-Runs o bus_scsi dsk h = banner-Runs o dsk h

-- The same drive, with its model and type, ready to be asked again.
pub record SameDrive (dsk : Disk) (dsk' : Disk) : Type 0 where
  pub drive : dsk'.drive ≡ dsk.drive
  pub model : dsk'.model ≡ dsk.model
  pub bus : dsk'.bus ≡ dsk.bus
  pub served : IsServed dsk'

abbrev pub AllSame : List Disk → List Disk → Type 0
AllSame [] [] = Unit {0}
AllSame [] (d ∷ ds) = ⊥
AllSame (d ∷ ds) [] = ⊥
AllSame (d ∷ ds) (d' ∷ ds') = SameDrive d d' × AllSame ds ds'

abbrev pub AllServed : List Disk → Type 0
AllServed [] = Unit {0}
AllServed (d ∷ ds) = IsServed d × AllServed ds

module _ {W : Type 0} (k : Kernel W) where
  display_temperature-SameDrive :
      (o : Output) (dsk : Disk)
      → IsServed dsk
      → Ensures Any (display_temperature k o dsk) (λ d s. SameDrive dsk d)
  unfolding display_temperature
  display_temperature-SameDrive o dsk h = Ensures-bind (show_banner-Runs o dsk.bus dsk h) λ _.
      Ensures-bind (query-Answered k (flags_of o) dsk.bus dsk refl h) λ r. Ensures-given λ a.
        Ensures-weaken (show_outcome-Runs o r.0 r.1 a.shown) λ d s q.
          subst (SameDrive dsk) (sym q)
            (record { drive = a.drive; model = a.model; bus = a.bus; served = a.served })

  display_all-AllSame :
      (o : Output) (disks : List Disk)
      → AllServed disks
      → Ensures Any (display_all k o disks) (λ ds s. AllSame disks ds)
  unfolding display_all
  display_all-AllSame o [] h = Ensures-pure _ (λ s q. tt)
  display_all-AllSame o (d ∷ ds) h = Ensures-bind (display_temperature-SameDrive o d h.0) λ d'.
      Ensures-given λ same.
        Ensures-bind (display_all-AllSame o ds h.1)
          λ ds'. Ensures-given λ rest. Ensures-pure _ (λ s q. (same, rest))

  -- The direct mode, on disks that can be served, returns whatever the kernel answers, and leaves
  -- the disks in their order, each with its drive, its model and its type, and able to be served.
  pub do_direct_mode-AllSame :
      (o : Output) (disks : List Disk) (s : Sys W)
      → AllServed disks
      → Post (λ ds s'. AllSame disks ds) (do_direct_mode k o disks s)
  unfolding do_direct_mode
  do_direct_mode-AllSame o disks s h =
      (Ensures-bind (display_all-AllSame o disks h) λ ds. Ensures-given λ same.
          Ensures-bind (Ensures-if o.debug (λ _. Runs-print _) (λ _. Runs-pure _))
            λ _. Ensures-pure _ (λ s q. same)).at
        s tt
