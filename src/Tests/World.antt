-- ===== src/Tests/World.antt =====
-- What the program stands on, in the tests.
use hddtemp.Prelude.{
  ◌≤◌, ◌<◌, ◌-◌, replicate, ℕ, ◌≢◌, Bool, true, false, Option, none, some, [], ◌∷◌, ◌++◌, refl,
  Bytes, length, arith,
}
use hddtemp.Prelude.Int.{pos}
use hddtemp.Db.Load.{load_database, read_loop, scan_lines}
use hddtemp.Db.Load.Spec.{IsSafeLoad}
use hddtemp.Device.{
  BusType, error, bus_unknown, bus_ata, bus_sata, bus_scsi, ◌>>=◌, SgSupport, untried, supported,
  unsupported, string_at,
}
use hddtemp.Device.Ensures.{Post}
use hddtemp.ScsiCmds.{scsi_sg_io, scsi_inquiry, scsi_command, get_sg_support, set_sg_support}
use hddtemp.SataCmds.{sata_pass_thru}
use hddtemp.FixString.{sata_fixstring}
use hddtemp.Sata.{sata_model}
use hddtemp.Scsi.{scsi_model}
use hddtemp.Ata.{ata_model}
use hddtemp.Units.{default_unit}
use hddtemp.Hddtemp.{Output, bus_model}
use hddtemp.Collect.Served.{HasModels}
use hddtemp.Daemon.Sockets.{Address}
use hddtemp.Options.{Number}
use hddtemp.Device.Ensures.{Ensures-weaken}
use hddtemp.Collect.Served.{HasModels}
use hddtemp.Smart.Raw.{IsBytes}
use hddtemp.Smart.Small.{HasBytes}
use hddtemp.Daemon.Start.{System, in_child}
use hddtemp.Daemon.Loop.{timed_out, ready}
use hddtemp.Main.{Platform}
use hddtemp.Main.Ends.{HasShortModels}
use hddtemp.Tests.Kernel.{test_kernel}

abbrev pub output : Output
output = record {
  debug = false;
  wakeup = false;
  quiet = false;
  numeric = false;
  unit = default_unit;
  separator = b'|';
  version = [];
  degree = [];
}

abbrev pub clock : Unit {0} → ℕ × Unit {0}
clock w = (1000, w)

abbrev pub address : ℕ → Address
address s = record { socket = some s; binds = true; listens = true }

abbrev pub number : Bytes → Number
number optarg = record { value = pos 80; moved = true; rest = []; erange = false }

-- Every file opens, and the database is empty.
abbrev pub open_any : Bytes → Unit {0} → (Option ℕ × ℕ) × Unit {0}
open_any drive w = ((some 3, 0), w)

abbrev pub compile : Bytes → Option Bytes
compile e = some e

abbrev pub matches : Bytes → Bytes → Bool
matches e model = true

abbrev pub read_none : ℕ → Bytes → Bytes × Bytes
read_none n f = ([], f)

model-at :
    (bus : BusType) (fd errno : ℕ) (out err : Bytes) (v : SgSupport)
    → bus ≢ error
    → bus ≢ bus_unknown
    → Post
        (λ m s'. length m ≤ 40)
        (bus_model test_kernel bus
          (some fd)
          (record { world = tt; errno = errno; sg_support = v; stdout = out; stderr = err }))
unfolding bus_model
model-at error fd errno out err v n u = absurd (n refl)
model-at bus_unknown fd errno out err v n u = absurd (u refl)
model-at bus_sata fd errno out err v n u =
    unfold sata_model sata_pass_thru scsi_sg_io ◌>>=◌ sata_fixstring string_at in omega arith
model-at bus_ata fd errno out err v n u = unfold ata_model ◌>>=◌ string_at in omega arith
model-at bus_scsi fd errno out err untried n u =
    unfold scsi_model scsi_inquiry scsi_command ◌>>=◌ string_at get_sg_support set_sg_support in
    omega arith
model-at bus_scsi fd errno out err supported n u =
    unfold scsi_model scsi_inquiry scsi_command ◌>>=◌ string_at get_sg_support set_sg_support in
    omega arith
model-at bus_scsi fd errno out err unsupported n u =
    unfold scsi_model scsi_inquiry scsi_command ◌>>=◌ string_at get_sg_support set_sg_support in
    omega arith

abbrev pub system : System
system = record {
  first_fork = in_child;
  second_fork = in_child;
  addresses = some (address 4 ∷ []);
  events =
      timed_out
      ∷ ready (true ∷ []) (some 9)
      ∷ ready (true ∷ []) none
      ∷ ready (true ∷ []) (some 8)
      ∷ [];
}

abbrev pub platform : Platform (Unit {0}) Bytes Bytes
platform = record {
  open_file = open_any;
  regcomp = compile;
  regexec = matches;
  open_database = λ path. some [];
  read = read_none;
  fuel = 5;
  garbage = [];
  strtol = number;
  clock = clock;
  year_before = λ now. now - 500;
  system = system;
  path = [];
  version = [];
  degree = [];
}

pub short_models : HasShortModels test_kernel platform
short_models path bus fd n u = record {
  at = λ s q. model-at bus fd s.errno s.stdout s.stderr s.sg_support n u;
}

pub IsBytes-replicate : (c n : ℕ) → c < 256 → IsBytes (replicate n c)
IsBytes-replicate c ℕ.zero h = tt
IsBytes-replicate c (ℕ.suc n) h = (h, IsBytes-replicate c n h)

IsBytes-append : (a b : Bytes) → IsBytes a → IsBytes b → IsBytes (a ++ b)
IsBytes-append [] b h h' = h'
IsBytes-append (c ∷ a) b h h' = (h.0, IsBytes-append a b h.1 h')

pub test_kernel-HasBytes : HasBytes test_kernel
test_kernel-HasBytes req w =
    IsBytes-append (replicate 20 b'A') (replicate 34 0 ++ (replicate 6 b'A' ++ replicate 452 0))
      (IsBytes-replicate b'A' 20 (omega arith))
      (IsBytes-append (replicate 34 0) (replicate 6 b'A' ++ replicate 452 0)
        (IsBytes-replicate 0 34 (omega arith))
        (IsBytes-append (replicate 6 b'A') (replicate 452 0)
          (IsBytes-replicate b'A' 6 (omega arith)) (IsBytes-replicate 0 452 (omega arith))))

pub served_models : HasModels test_kernel open_any compile matches read_none 5 [] (some [])
served_models bus fd n u = Ensures-weaken (short_models [] bus fd n u) (λ m s h. tt)

pub empty_load : IsSafeLoad (load_database read_none 5 [] (some []) [])
empty_load = unfold load_database read_loop scan_lines in tt
