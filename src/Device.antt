-- ===== src/Device.antt =====
-- The disks and the kernel's side of them: `struct disk` and the enumerations of src/hddtemp.h, the
-- calls that the drivers make of the system, and the state that they change.
pub mod Ensures
pub mod Log
pub mod Heard
pub mod Kept
pub mod Silent
use mathlib.Core.Option
use hddtemp.Prelude.{
  ℕ, Bool, true, false, Option, none, some, List, [], ◌∷◌, ◌++◌, ◌==◌, if◌then◌else◌, Bytes, codes,
  take,
}
use hddtemp.Prelude.Int.{ℤ, pos, negsuc}
use hddtemp.Db.{HarddriveEntry}

-- `enum e_bustype`
pub data BusType : Type 0 where
  error bus_unknown bus_sata bus_ata bus_scsi : BusType

-- `enum e_gettemp`
pub data GetTemp : Type 0 where
  gettemp_error not_applicable unknown known no_sensor drive_sleep : GetTemp

-- `enum e_powermode`
pub data PowerMode : Type 0 where
  pwm_unknown pwm_active pwm_sleeping pwm_standby : PowerMode

-- `struct disk`; the list of disks is a list of these. `fd` is `none` for -1, `model` and `db_entry`
-- are `none` for NULL.
pub record Disk : Type 0 where
  pub fd : Option ℕ
  pub drive : Bytes
  pub model : Option Bytes
  pub bus : BusType
  pub value : ℤ
  pub db_entry : Option HarddriveEntry
  pub errormsg : Bytes
  pub ret : GetTemp
  pub last_time : ℕ

-- `snprintf(dsk->errormsg, MAX_ERRORMSG_SIZE, …)`: 127 bytes and a NUL.
abbrev pub set_errormsg : Disk → Bytes → Disk
set_errormsg dsk text = record dsk { errormsg = take 127 text }

-- The option variables that the drivers read.
pub record Flags : Type 0 where
  pub debug : Bool
  pub wakeup : Bool

-- The fields of `struct sg_io_hdr` that `scsi_SG_IO` sets, with the buffers that they point to.
pub record SgIoHdr : Type 0 where
  pub interface_id : ℕ
  pub cmdp : Bytes
  pub dxfer_len : ℕ
  pub mx_sb_len : ℕ
  pub dxfer_direction : ℤ
  pub timeout : ℕ

-- The calls of `ioctl`, each with what its argument holds.
pub data Request : Type 0 where
  hdio_get_identity : Option ℕ → Request
  hdio_drive_cmd : Option ℕ → Bytes → Request
  scsi_get_bus_number : Option ℕ → Request
  sg_io : Option ℕ → SgIoHdr → Request
  scsi_send_command : Option ℕ → Bytes → Request

-- -1 as the bit pattern of an `int`.
abbrev pub minus_one : ℕ
minus_one = 4294967295

-- What a call leaves: its result, the bit pattern of an `int`; `errno`, if it failed; the bytes of
-- the argument's data buffer and of the sense buffer, whatever they held before.
pub record Reply : Type 0 where
  pub ret : ℕ
  pub errno : ℕ
  pub content : Bytes
  pub sense : Bytes

-- The kernel: what it answers, and the world of devices behind it.
pub record Kernel (W : Type 0) : Type 0 where
  pub ioctl : Request → W → Reply × W
  pub close : Option ℕ → W → W
  pub strerror : ℕ → Bytes
  -- what a buffer of so many bytes on the stack holds before it is written
  pub stack : ℕ → Bytes

-- `static int SG_IO_supported` of `scsi_command`: -1, 0 and 1.
pub data SgSupport : Type 0 where
  untried unsupported supported : SgSupport

-- What the drivers change beside the disk: the world, `errno`, `SG_IO_supported`, and the texts on
-- the standard output and on the standard error.
pub record Sys (W : Type 0) : Type 0 where
  pub world : W
  pub errno : ℕ
  pub sg_support : SgSupport
  pub stdout : Bytes
  pub stderr : Bytes

-- An action of the drivers; `none` is a read behind a buffer, or through NULL.
abbrev pub Dev : Type 0 → Type 0 → Type 0
Dev W A = Sys W → Option (A × Sys W)

module _ {W A : Type 0} where
  unfoldable pub pure : A → Dev W A
  pure a s = some (a, s)

  -- The program is out of its memory.
  unfoldable pub crash : Dev W A
  crash s = none

module _ {W : Type 0} where
  unfoldable pub get_errno : Dev W ℕ
  get_errno s = some (s.errno, s)

  -- `printf`
  unfoldable pub print : Bytes → Dev W (Unit {0})
  print text s = some (tt, record s { stdout = s.stdout ++ text })

  -- `fprintf(stderr, …)`
  unfoldable pub eprint : Bytes → Dev W (Unit {0})
  eprint text s = some (tt, record s { stderr = s.stderr ++ text })

-- The string at the start of the bytes from a pointer to the end of its buffer, if it ends there.
unfoldable pub string_at : Bytes → Option Bytes
string_at [] = none
string_at (c ∷ m) = if c == 0 then some [] else Option.map (◌∷◌ c) (string_at m)

-- `PWM_STANDBY`, `PWM_SLEEPING`
abbrev pub sleeps : PowerMode → Bool
sleeps pwm_sleeping = true
sleeps pwm_standby = true
sleeps pwm_active = false
sleeps pwm_unknown = false

module _ {W : Type 0} where
  -- `strdup` of a pointer into a buffer, whose remaining bytes these are.
  unfoldable pub strdup : Bytes → Dev W Bytes
  strdup m s = elim (string_at m) [ none ↦ none | some text ↦ some (text, s) ]

module _ {W : Type 0} (k : Kernel W) where
  -- `errno` is written by a call that gives -1.
  unfoldable pub ioctl : Request → Dev W Reply
  ioctl req s =
      let (r, w) = k.ioctl req s.world in
      some (r, record s { world = w; errno = if r.ret == minus_one then r.errno else s.errno })

  -- `close(dsk->fd); dsk->fd = -1;`
  unfoldable pub close_disk : Disk → Dev W Disk
  close_disk dsk s = some (record dsk { fd = none }, record s { world = k.close dsk.fd s.world })

module _ {W A B : Type 0} where
  infixl 5 ◌>>=◌ ◌>>◌
  -- Opening this opens the actions above too.
  unfoldable pub ◌>>=◌ : Dev W A → (A → Dev W B) → Dev W B
  unfolding pure crash get_errno print eprint strdup ioctl close_disk
  ◌>>=◌ m f s = elim (m s) [ none ↦ none | some (a, s') ↦ f a s' ]

  abbrev pub ◌>>◌ : Dev W A → Dev W B → Dev W B
  m >> k = m >>= λ _. k
