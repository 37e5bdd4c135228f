-- ===== src/Collect.antt =====
-- src/hddtemp.c: the loop of `main` that collects the disks of the command line.
pub mod Served
pub mod Names
pub mod Rounds
pub mod Loop
pub mod Mute
pub mod Order
use hddtemp.Prelude.{
  ℕ, zero, suc, ◌+◌, ◌-◌, Bool, true, false, not, ◌&&◌, Option, none, some, List, [], ◌∷◌, ◌++◌,
  ◌==◌, leb, if◌then◌else◌, Bytes, codes, length,
}
use hddtemp.Prelude.Int.{pos, negsuc}
use hddtemp.Db.{HarddriveEntry}
use hddtemp.Db.Load.{
  Loaded, loaded, cannot_open, bad_line, line_too_long, buffer_overrun, out_of_fuel, load_database,
}
use hddtemp.Db.Lookup.{Lookup, found, unsupported, bad_regexp, is_a_supported_drive}
use hddtemp.Device.{
  BusType, error, bus_unknown, bus_sata, bus_ata, bus_scsi, Disk, gettemp_error, set_errormsg,
  Kernel, Sys, Dev, ◌>>=◌, ◌>>◌, pure, crash, get_errno, eprint,
}
use hddtemp.Hddtemp.{probe_bus_type, bus_model}

-- `strchr(arg, ':')`: the text before the colon, and behind it.
unfoldable pub split_colon : Bytes → Option (Bytes × Bytes)
split_colon [] = none
split_colon (c ∷ arg) =
    let rest = split_colon arg in
    if c == b':' then some ([], arg) else elim rest [ none ↦ none | some (l, r) ↦ some (c ∷ l, r) ]

-- `toupper` in the C locale.
abbrev pub toupper : ℕ → ℕ
toupper c = if leb b'a' c && leb c b'z' then c - 32 else c

abbrev pub upper : Bytes → Bytes
upper [] = []
upper (c ∷ text) = toupper c ∷ upper text

-- `strncmp(a, b, n) == 0`, of two strings without their NUL.
unfoldable pub strncmp_eq : ℕ → Bytes → Bytes → Bool
strncmp_eq zero a b = true
strncmp_eq (suc n) [] [] = true
strncmp_eq (suc n) [] (c ∷ b) = false
strncmp_eq (suc n) (c ∷ a) [] = false
strncmp_eq (suc n) (c ∷ a) (d ∷ b) = c == d && strncmp_eq n a b

-- The fields `name` of the three entries of `bus`.
abbrev pub bus_name : BusType → Bytes
bus_name error = []
bus_name bus_unknown = []
bus_name bus_sata = codes "SATA"
bus_name bus_ata = codes "PATA"
bus_name bus_scsi = codes "SCSI"

-- `p - argv[i] - 1` as a `size_t`.
abbrev pub compared : ℕ → ℕ
compared zero = 18446744073709551615
compared (suc n) = n

-- The type that `main` forces: `arg` is the argument in upper case up to its colon, the `n`-th byte.
-- `ERROR` is 0, none is forced.
unfoldable pub force_type : Bytes → ℕ → BusType
unfolding strncmp_eq
force_type arg n =
    if strncmp_eq (compared n) (bus_name bus_sata) arg
    then bus_sata
    else (if strncmp_eq (compared n) (bus_name bus_ata) arg
        then bus_ata
        else (if strncmp_eq (compared n) (bus_name bus_scsi) arg then bus_scsi else error))

-- The forced type and the name of the drive.
unfoldable pub parse_argument : Bytes → BusType × Bytes
unfolding split_colon force_type
parse_argument arg = elim (split_colon arg) [
  | none ↦ (error, arg)
  | some (kind, drive) ↦ (force_type (upper kind ++ b':' ∷ drive) (length kind), drive)
]

-- The zeroed disk, with its drive and its type; its `fd` is that of a call of `open` that fails.
abbrev pub new_disk : BusType → Bytes → Disk
new_disk bus drive = record {
  fd = none;
  drive = drive;
  model = none;
  bus = bus;
  value = pos 0;
  db_entry = none;
  errormsg = [];
  ret = gettemp_error;
  last_time = 0;
}

-- `DEFAULT_ATTRIBUTE_ID` and the rest of the entry of a drive that the database does not know.
abbrev pub default_entry : HarddriveEntry
default_entry = record { regexp = []; attribute_id = 194; description = []; unit = b'C' }

-- What the loop carries: `supported_drives`, once it is loaded; `ldisks`; `ret`.
pub record Collecting : Type 0 where
  pub drives : Option (List HarddriveEntry)
  pub disks : List Disk
  pub failed : Bool

-- `for(i = argc - 1; i >= optind; i--)`: the arguments from the last to the first.
abbrev pub backwards : List Bytes → List Bytes → List Bytes
backwards [] acc = acc
backwards (arg ∷ args) acc = backwards args (arg ∷ acc)

-- A round ends with the next state, or the program with a status.
pub data Round : Type 0 where
  next : Collecting → Round
  exit : ℕ → Round

-- `ldisks`, without the disk.
abbrev pub drop_disk : Collecting → Round
drop_disk st = next (record st { failed = true })

abbrev pub add_disk : Collecting → Disk → Round
add_disk st dsk = next (record st { disks = dsk ∷ st.disks })

-- The exits with -2 and with 2 of `is_a_supported_drive` and `load_database`.
abbrev pub with_found : Collecting → Disk → List HarddriveEntry → Lookup → Round
with_found st dsk drives bad_regexp = exit 254
with_found st dsk drives (found e) =
    add_disk (record st { drives = some drives }) (record dsk { db_entry = some e })
with_found st dsk drives unsupported =
    add_disk (record st { drives = some drives }) (record dsk { db_entry = some default_entry })

module _ {W R F : Type 0} (k : Kernel W)
    -- `open(dsk->drive, O_RDONLY | O_NONBLOCK)`: the descriptor, or none, and the error
    (open_file : Bytes → W → (Option ℕ × ℕ) × W) (regcomp : Bytes → Option R)
    (regexec : R → Bytes → Bool)
    -- the file of the database, and how it is read
    (read : ℕ → F → Bytes × F) (fuel : ℕ) (garbage : Bytes) (file : Option F) where
  unfoldable pub open_disk : Bytes → Dev W (Option ℕ)
  open_disk drive s =
      let ((fd, errno), w) = open_file drive s.world in
      some (fd, record s { world = w; errno = elim fd [ none ↦ errno | some n ↦ 0 ] })

  -- The lookup of the model in what `load_database` leaves; it has read behind its buffer for `buffer_overrun`.
  unfoldable pub look_up : Collecting → Disk → Bytes → Loaded → Dev W Round
  look_up st dsk model (loaded drives) =
      pure (with_found st dsk drives (is_a_supported_drive regcomp regexec (some model) drives))
  look_up st dsk model cannot_open = pure (exit 2)
  look_up st dsk model (bad_line n) = pure (exit 2)
  look_up st dsk model line_too_long = pure (exit 2)
  look_up st dsk model buffer_overrun = crash
  look_up st dsk model out_of_fuel = crash

  -- `if(!db_loaded) { load_database(database_path); … }`
  unfoldable pub drives_of : Option (List HarddriveEntry) → Loaded
  drives_of (some drives) = loaded drives
  drives_of none = load_database read fuel garbage file []

  -- `if(dsk->type != BUS_SCSI)`, for the disk's type
  unfoldable pub finish_disk : BusType → Collecting → Disk → Bytes → Dev W Round
  unfolding look_up drives_of
  finish_disk bus_scsi st dsk model = pure (add_disk st dsk)
  finish_disk _ st dsk model = look_up st dsk model (drives_of st.drives)

  -- From the test for `BUS_UNKNOWN` on, for the disk's type.
  unfoldable pub with_bus : BusType → Collecting → Disk → Dev W Round
  unfolding finish_disk
  with_bus bus_unknown st dsk = do
    eprint (
        codes "ERROR: "
        ++ dsk.drive
        ++ codes ": can't determine bus type (or this bus type is unknown)"
        ++ b'\n' ∷ [])
    pure (drop_disk st)
  with_bus bus st dsk = do
    model ← bus_model k bus dsk.fd
    finish_disk bus st (record dsk { model = some model; value = negsuc 0 }) model

  -- `if(! dsk->type) dsk->type = probe_bus_type(dsk);`
  unfoldable pub disk_bus : BusType → Option ℕ → Dev W BusType
  disk_bus error fd = probe_bus_type k fd
  disk_bus bus fd = pure bus

  -- Behind the call of `open`.
  unfoldable pub with_fd : Option ℕ → Collecting → Disk → Dev W Round
  unfolding with_bus disk_bus
  with_fd none st dsk = do
    errno ← get_errno
    let text = codes "open: " ++ k.strerror errno ++ b'\n' ∷ []
    pure (add_disk (record st { failed = true }) (record (set_errormsg dsk text) { bus = error }))
  with_fd (some fd) st dsk = do
    bus ← disk_bus dsk.bus (some fd)
    with_bus bus st (record dsk { fd = some fd; bus = bus })

  -- A round of the loop.
  unfoldable pub collect_disk : Collecting → Bytes → Dev W Round
  unfolding open_disk with_fd
  collect_disk st arg = do
    let (kind, drive) = parse_argument arg
    fd ← open_disk drive
    with_fd fd st (new_disk kind drive)

  unfoldable pub collect_next : Round → (Collecting → Dev W Round) → Dev W Round
  collect_next (next st) rest = rest st
  collect_next (exit status) rest = pure (exit status)

  -- The loop, from the last argument to the first.
  unfoldable pub collect : List Bytes → Collecting → Dev W Round
  unfolding collect_disk collect_next
  collect [] st = pure (next st)
  collect (arg ∷ args) st = do round ← collect_disk st arg; collect_next round (collect args)
