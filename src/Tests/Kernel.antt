-- ===== src/Tests/Kernel.antt =====
-- A kernel whose every call gives the same reply, and a disk behind it.
use hddtemp.Prelude.{false, some, List, [], ◌∷◌, ◌++◌, codes, replicate}
use hddtemp.Prelude.Int.{negsuc}
use hddtemp.Db.{HarddriveEntry}
use hddtemp.Device.{bus_ata, Disk, gettemp_error, Flags, Request, Kernel, Sys, SgSupport}

-- The sense is that of a SATA drive.
abbrev pub test_kernel : Kernel (Unit {0})
test_kernel = record {
  ioctl = λ req w. (
    record {
      ret = 0;
      errno = 0;
      content = replicate 20 b'A' ++ replicate 34 0 ++ replicate 6 b'A' ++ replicate 452 0;
      sense = 0x72 ∷ [];
    },
    w,
  );
  close = λ fd w. w;
  strerror = λ n. [];
  stack = λ n. replicate n 0;
}

abbrev pub test_entry : HarddriveEntry
test_entry = record { regexp = []; attribute_id = 194; description = []; unit = b'C' }

abbrev pub test_disk : Disk
test_disk = record {
  fd = some 3;
  drive = codes "/dev/sda";
  model = some (codes "AB");
  bus = bus_ata;
  value = negsuc 0;
  db_entry = some test_entry;
  errormsg = [];
  ret = gettemp_error;
  last_time = 0;
}

abbrev pub test_flags : Flags
test_flags = record { debug = false; wakeup = false }

abbrev pub test_state : Sys (Unit {0} × List Request)
test_state = record {
  world = (tt, []);
  errno = 0;
  sg_support = SgSupport.untried;
  stdout = [];
  stderr = [];
}

abbrev pub plain_state : Sys (Unit {0})
plain_state = record {
  world = tt;
  errno = 0;
  sg_support = SgSupport.untried;
  stdout = [];
  stderr = [];
}
