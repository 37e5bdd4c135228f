-- ===== src/Tests/Told.antt =====
-- A query of a SATA drive on a kernel that fills every buffer.
use hddtemp.Prelude.{ℕ, zero, suc, some, [], ◌∷◌, ◌<◌, refl, replicate, length-replicate, arith}
use hddtemp.Device.{bus_sata, Disk, Kernel, Sys, SgSupport}
use hddtemp.Device.Ensures.{Post}
use hddtemp.Device.Heard.{buffer_size, HasSizes, World, heard, Tells}
use hddtemp.Smart.Raw.{IsBytes}
use hddtemp.Smart.Small.{HasBytes}
use hddtemp.Hddtemp.{query}
use hddtemp.Hddtemp.Told.{IsFrom, query-Told}
use hddtemp.Tests.Kernel.{test_disk, test_entry, test_flags}

-- Every call succeeds and sets every byte of its buffer.
abbrev full_kernel : Kernel (Unit {0})
full_kernel = record {
  ioctl = λ req w. (
    record { ret = 0; errno = 0; content = replicate (buffer_size req) 255; sense = 0x72 ∷ [] },
    w,
  );
  close = λ fd w. w;
  strerror = λ n. [];
  stack = λ n. replicate n 0;
}

full_kernel-HasSizes : HasSizes full_kernel
full_kernel-HasSizes = record {
  content = λ req w. length-replicate (buffer_size req) 255;
  stack = λ n. length-replicate n 0;
}

all-IsBytes : (n c : ℕ) → c < 256 → IsBytes (replicate n c)
all-IsBytes zero c h = tt
all-IsBytes (suc n) c h = (h, all-IsBytes n c h)

full_kernel-HasBytes : HasBytes full_kernel
full_kernel-HasBytes req w = all-IsBytes (buffer_size req) 255 (omega arith)

abbrev sata_disk : Disk
sata_disk = record test_disk {
  bus = bus_sata;
  db_entry = some (record test_entry { attribute_id = 255 });
}

abbrev pub nothing_heard : Sys (World (Unit {0}))
nothing_heard = record {
  world = (tt, []);
  errno = 0;
  sg_support = SgSupport.untried;
  stdout = [];
  stderr = [];
}

query-Told_example :
    Post
      (Tells (IsFrom bus_sata sata_disk))
      (query (heard full_kernel) test_flags bus_sata sata_disk nothing_heard)
query-Told_example =
    query-Told full_kernel full_kernel-HasBytes full_kernel-HasSizes test_flags refl bus_sata
      sata_disk nothing_heard (tt, tt)
