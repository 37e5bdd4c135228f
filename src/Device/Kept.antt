-- ===== src/Device/Kept.antt =====
-- What a driver's `get_temperature` keeps of a disk, and the rules for actions that only have to run.
use hddtemp.Prelude.{Option, none, some, Bytes, ◌≡◌, refl}
use hddtemp.Device.{
  BusType, error, bus_unknown, bus_sata, bus_ata, bus_scsi, Disk, GetTemp, Request, Kernel, Sys,
  Dev, ◌>>=◌, pure, get_errno, print, ioctl, close_disk,
}
use hddtemp.Device.Ensures.{Ensures, Ensures-pure}

abbrev pub IsSome : {A : Type 0} → Option A → Type 0
IsSome none = ⊥
IsSome (some a) = Unit {0}

-- A disk that the program can ask for its temperature and show: one that could not be opened, or one
-- with a model and, but on the SCSI bus, an entry.
abbrev pub ServedOn : BusType → Disk → Type 0
ServedOn error dsk = Unit {0}
ServedOn bus_unknown dsk = ⊥
ServedOn bus_sata dsk = IsSome dsk.model × IsSome dsk.db_entry
ServedOn bus_ata dsk = IsSome dsk.model × IsSome dsk.db_entry
ServedOn bus_scsi dsk = IsSome dsk.model

abbrev pub IsServed : Disk → Type 0
IsServed dsk = ServedOn dsk.bus dsk

-- The drive, the model and the type are those of `dsk`, and there is an entry.
pub record Kept (dsk : Disk) (dsk' : Disk) : Type 0 where
  pub drive : dsk'.drive ≡ dsk.drive
  pub model : dsk'.model ≡ dsk.model
  pub bus : dsk'.bus ≡ dsk.bus
  pub has_entry : IsSome dsk'.db_entry

module _ {W : Type 0} where
  -- Nothing is asked of the state.
  abbrev pub Any : Sys W → Type 0
  Any s = Unit {0}

  -- The action returns.
  abbrev pub Runs : {A : Type 0} → Dev W A → Type 0
  Runs m = Ensures Any m (λ a s. Any s)

  -- A driver's result is the disk with the named fields kept.
  abbrev pub Keeps : Disk → Dev W (GetTemp × Disk) → Type 0
  Keeps dsk m = Ensures Any m (λ r s. Kept dsk r.1)

  pub Runs-pure : {A : Type 0} (a : A) → Runs (pure a)
  Runs-pure a = Ensures-pure a (λ s q. tt)

  pub Keeps-pure :
      (dsk : Disk) (ret : GetTemp) (dsk' : Disk) → Kept dsk dsk' → Keeps dsk (pure (ret, dsk'))
  Keeps-pure dsk ret dsk' h = Ensures-pure (ret, dsk') (λ s q. h)

  pub Runs-print : (text : Bytes) → Runs (print text)
  unfolding print
  Runs-print text = record { at = λ s q. tt }

  pub Runs-get_errno : Runs get_errno
  unfolding get_errno
  Runs-get_errno = record { at = λ s q. tt }

  pub Runs-ioctl : (k : Kernel W) (req : Request) → Runs (ioctl k req)
  unfolding ioctl
  Runs-ioctl k req = record { at = λ s q. tt }

  pub Keeps-close_disk :
      (k : Kernel W) (dsk dsk' : Disk) (ret : GetTemp)
      → Kept dsk dsk'
      → Keeps dsk (close_disk k dsk' >>= λ d. pure (ret, d))
  unfolding close_disk ◌>>=◌
  Keeps-close_disk k dsk dsk' ret h = record {
    at = λ s q. record { drive = h.drive; model = h.model; bus = h.bus; has_entry = h.has_entry };
  }

pub IsSome-some : {A : Type 0} (o : Option A) → IsSome o → (a : A) × (o ≡ some a)
IsSome-some none h = absurd h
IsSome-some (some a) h = (a, refl)

-- A fact that the state has nothing to do with, from the action before.
pub Ensures-given :
    {W A : Type 0} {C : Type 0} {m : Dev W A} {P : A → Sys W → Type 0}
    → (C → Ensures Any m P)
    → Ensures (λ s. C) m P
Ensures-given f = record { at = λ s c. (f c).at s tt }
