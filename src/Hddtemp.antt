-- ===== src/Hddtemp.antt =====
-- src/hddtemp.c: the table of buses, probing, and the direct mode. A text of the program is as in the
-- source: no catalogue translates it.
pub mod Served
pub mod Lines
pub mod Reading
pub mod Told
pub mod Names
pub mod Models
pub mod Probe
use hddtemp.Prelude.{
  ℕ, Bool, true, false, not, ◌&&◌, Option, none, some, List, [], ◌∷◌, ◌++◌, if◌then◌else◌, Bytes,
  codes,
}
use hddtemp.Prelude.Int.{ℤ}
use hddtemp.Printf.{show_int}
use hddtemp.Device.{
  BusType, error, bus_unknown, bus_sata, bus_ata, bus_scsi, Disk, GetTemp, gettemp_error,
  not_applicable, unknown, known, no_sensor, drive_sleep, Flags, Kernel, Dev, ◌>>=◌, ◌>>◌, pure,
  crash, print, eprint,
}
use hddtemp.Ata.{ata_probe, ata_model, ata_get_temperature}
use hddtemp.Sata.{sata_probe, sata_model, sata_get_temperature}
use hddtemp.Scsi.{scsi_probe, scsi_model, scsi_get_temperature}
use hddtemp.Units.{Scale, value_to_unit, get_unit}

-- The option variables that the direct mode and the daemon read.
pub record Output : Type 0 where
  pub debug : Bool
  pub wakeup : Bool
  pub quiet : Bool
  pub numeric : Bool
  pub unit : Scale
  pub separator : ℕ
  -- `VERSION` of config.h, and what `degree_sign` of src/utf8.c gives
  pub version : Bytes
  pub degree : Bytes

abbrev pub flags_of : Output → Flags
flags_of o = record { debug = o.debug; wakeup = o.wakeup }

-- What stands behind a pointer that may be NULL.
abbrev pub deref : {W A : Type 0} → Option A → Dev W A
deref none = crash
deref (some a) = pure a

module _ {W : Type 0} (k : Kernel W) where
  -- `probe_bus_type`
  unfoldable pub probe_bus_type : Option ℕ → Dev W BusType
  probe_bus_type fd = do
    sata ← sata_probe k fd
    if sata then pure bus_sata else do
      ata ← ata_probe k fd
      if ata
          then pure bus_ata
          else do scsi ← scsi_probe k fd; pure (if scsi then bus_scsi else bus_unknown)

  -- `bus[type]->model(fd)`; the entries of `bus` below `BUS_SATA` are NULL.
  unfoldable pub bus_model : BusType → Option ℕ → Dev W Bytes
  bus_model error fd = crash
  bus_model bus_unknown fd = crash
  bus_model bus_sata fd = sata_model k fd
  bus_model bus_ata fd = ata_model k fd
  bus_model bus_scsi fd = scsi_model k fd

  -- `bus[type]->get_temperature(dsk)`
  unfoldable pub bus_get_temperature : Flags → BusType → Disk → Dev W (GetTemp × Disk)
  bus_get_temperature flags error dsk = crash
  bus_get_temperature flags bus_unknown dsk = crash
  bus_get_temperature flags bus_sata dsk = sata_get_temperature k flags dsk
  bus_get_temperature flags bus_ata dsk = ata_get_temperature k flags dsk
  bus_get_temperature flags bus_scsi dsk = scsi_get_temperature k dsk

  -- `GETTEMP_ERROR` of a disk of type `ERROR`, else what its driver gives.
  unfoldable pub query : Flags → BusType → Disk → Dev W (GetTemp × Disk)
  unfolding bus_get_temperature
  query flags error dsk = pure (gettemp_error, dsk)
  query flags bus_unknown dsk = bus_get_temperature flags bus_unknown dsk
  query flags bus_sata dsk = bus_get_temperature flags bus_sata dsk
  query flags bus_ata dsk = bus_get_temperature flags bus_ata dsk
  query flags bus_scsi dsk = bus_get_temperature flags bus_scsi dsk

-- `"%s: %s: "` and a text, of a drive and its model.
unfoldable pub about : Disk → Bytes → Bytes → Bytes
about dsk model text = dsk.drive ++ codes ": " ++ model ++ codes ": " ++ text

-- `"%d%s%c"` of the value, or `"%d"`.
unfoldable pub degrees : Output → ℤ → ℕ → Bytes
degrees o value unit = show_int value ++ o.degree ++ unit ∷ []

abbrev pub sensor_warning : Bytes → Bytes
sensor_warning drive =
    codes "WARNING: Drive "
    ++ drive
    ++ codes " doesn't seem to have a temperature sensor."
    ++ b'\n' ∷ codes "WARNING: This doesn't mean it hasn't got one."
    ++ b'\n' ∷ codes "WARNING: If you are sure it has one, please contact me (hddtemp@guzu.net)."
    ++ b'\n' ∷ codes "WARNING: See --help, --debug and --drivebase options."
    ++ b'\n' ∷ []

abbrev pub debug_banner : Output → Bytes → Bytes
debug_banner o model =
    b'\n' ∷ codes "================= hddtemp "
    ++ o.version
    ++ codes " =================="
    ++ b'\n' ∷ codes "Model: "
    ++ model
    ++ b'\n' ∷ b'\n' ∷ []

module _ {W : Type 0} where
  -- `if(numeric && quiet) printf("0\n"); else …`
  unfoldable pub zero_or : Output → Dev W (Unit {0}) → Dev W (Unit {0})
  zero_or o m = if o.numeric && o.quiet then print (b'0' ∷ b'\n' ∷ []) else m

  -- The switch of `display_temperature`, behind the test for `GETTEMP_ERROR`.
  unfoldable pub show_result : Output → Disk → Bytes → GetTemp → Dev W (Unit {0})
  unfolding about degrees zero_or
  show_result o dsk model gettemp_error = pure tt
  show_result o dsk model not_applicable =
      zero_or o (print (about dsk model (dsk.errormsg ++ b'\n' ∷ [])))
  show_result o dsk model unknown = do
    if o.quiet then pure tt else eprint (sensor_warning dsk.drive)
    zero_or o (eprint (about dsk model (codes " no sensor" ++ b'\n' ∷ [])))
  show_result o dsk model known = do
    value ← deref (value_to_unit o.unit dsk)
    if o.numeric then print (show_int value ++ b'\n' ∷ []) else do
      unit ← deref (get_unit o.unit dsk)
      print (about dsk model (degrees o value unit ++ b'\n' ∷ []))
  show_result o dsk model drive_sleep =
      zero_or o (eprint (about dsk model (codes "drive is sleeping" ++ b'\n' ∷ [])))
  show_result o dsk model no_sensor = zero_or o (
      eprint (
        about dsk model
          (codes " drive supported, but it doesn't have a temperature sensor." ++ b'\n' ∷ [])))

  -- Behind the test for `GETTEMP_ERROR`.
  unfoldable pub show_known : Output → GetTemp → Disk → Dev W Disk
  unfolding show_result
  show_known o ret dsk =
      if o.debug
      then pure dsk
      else (do model ← deref dsk.model; show_result o dsk model ret; pure dsk)

  -- Behind the call of `get_temperature`.
  unfoldable pub show_outcome : Output → GetTemp × Disk → Dev W Disk
  unfolding show_known
  show_outcome o (gettemp_error, dsk) = do
    eprint (dsk.drive ++ codes ": " ++ dsk.errormsg ++ b'\n' ∷ [])
    pure dsk
  show_outcome o (ret, dsk) = show_known o ret dsk

  -- `if(dsk->type != ERROR && debug)`
  unfoldable pub show_banner : Output → BusType → Disk → Dev W (Unit {0})
  show_banner o error dsk = pure tt
  show_banner o _ dsk =
      if o.debug then (do model ← deref dsk.model; print (debug_banner o model)) else pure tt

module _ {W : Type 0} (k : Kernel W) where
  -- `display_temperature`; the disk as it is left. A model that is NULL is not printed.
  unfoldable pub display_temperature : Output → Disk → Dev W Disk
  unfolding query show_outcome show_banner
  display_temperature o dsk = do
    show_banner o dsk.bus dsk
    r ← query k (flags_of o) dsk.bus dsk
    show_outcome o r

  unfoldable pub display_all : Output → List Disk → Dev W (List Disk)
  unfolding display_temperature
  display_all o [] = pure []
  display_all o (dsk ∷ ldisks) = do
    dsk' ← display_temperature o dsk
    rest ← display_all o ldisks
    pure (dsk' ∷ rest)

  -- `do_direct_mode`
  unfoldable pub do_direct_mode : Output → List Disk → Dev W (List Disk)
  unfolding display_all
  do_direct_mode o ldisks = do
    disks ← display_all o ldisks
    if o.debug
        then print (
            b'\n'
              ∷ codes "If one of the field value seems to match the temperature, be sure to read"
            ++ b'\n'
              ∷ codes "the hddtemp man page before sending a report (section REPORT). Thanks."
            ++ b'\n' ∷ [])
        else pure tt
    pure disks
