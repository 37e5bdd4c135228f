-- ===== src/Tests/Script.antt =====
-- Whole runs of the program, on a kernel and a database that behave well.
use hddtemp.Prelude.{
  ℕ, zero, suc, ◌<◌, ◌≤◌, true, some, List, [], ◌∷◌, ◌++◌, ◌≡◌, ◌≢◌, inl, refl, Bytes, codes,
  get_or, take, drop, length, replicate, length-replicate, arith,
}
use hddtemp.Db.Line.{overrun, no_entry, parse_db_line}
use hddtemp.Db.Line.RoundTrip.{parse_db_line-comment}
use hddtemp.Db.Load.Lines.{unlines}
use hddtemp.Device.{
  bus_scsi, Kernel, hdio_get_identity, hdio_drive_cmd, scsi_get_bus_number, sg_io,
  scsi_send_command,
}
use hddtemp.Device.Ensures.{Post}
use hddtemp.Device.Heard.{buffer_size, heard, Newest}
use hddtemp.FixString.{swap_pairs}
use hddtemp.FixString.Spec.{tidy, drop_blanks, compact}
use hddtemp.Hddtemp.{bus_model}
use hddtemp.Hddtemp.Models.{bus_model-Named}
use hddtemp.Tests.Told.{nothing_heard}
use hddtemp.Hddtemp.Names.{IsModel, inquiry_name, identify_name}
use hddtemp.Hddtemp.Models.Rules.{HasNames}
use hddtemp.Options.{Options, initial, parse_options, option_step, parse_rest, choose_mode}
use hddtemp.Main.{Platform, main}
use hddtemp.Db.Load.Spec.{IsLoadable, load_lines}
use hddtemp.Main.Table.{ShowsTable, main-ShowsTable}
use hddtemp.Main.WellBehaved.{IsWellBehaved}
use hddtemp.Tests.Database.{line, lines-IsLoadable}
use hddtemp.Tests.Kernel.{plain_state}
use hddtemp.Tests.World.{platform, IsBytes-replicate}

-- Every call succeeds and clears its buffer: the drives have no name.
abbrev blank_kernel : Kernel (Unit {0})
blank_kernel = record {
  ioctl = λ req w. (
    record { ret = 0; errno = 0; content = replicate (buffer_size req) 0; sense = 0x72 ∷ [] },
    w,
  );
  close = λ fd w. w;
  strerror = λ n. [];
  stack = λ n. replicate n 0;
}

-- Every byte is a NUL.
abbrev IsBlank : Bytes → Type 0
IsBlank m = (i : ℕ) → get_or m i 0 ≡ 0

IsBlank-replicate : (n : ℕ) → IsBlank (replicate n 0)
IsBlank-replicate zero i = refl
IsBlank-replicate (suc n) zero = refl
IsBlank-replicate (suc n) (suc i) = IsBlank-replicate n i

IsBlank-drop : (n : ℕ) (m : Bytes) → IsBlank m → IsBlank (drop n m)
IsBlank-drop zero m h = h
IsBlank-drop (suc n) [] h = h
IsBlank-drop (suc n) (c ∷ m) h = IsBlank-drop n m (λ i. h (suc i))

IsBlank-take : (n : ℕ) (m : Bytes) → IsBlank m → IsBlank (take n m)
IsBlank-take zero m h i = refl
IsBlank-take (suc n) [] h i = refl
IsBlank-take (suc n) (c ∷ m) h zero = h 0
IsBlank-take (suc n) (c ∷ m) h (suc i) = IsBlank-take n m (λ i. h (suc i)) i

IsBlank-swap_pairs : (m : Bytes) → IsBlank m → IsBlank (swap_pairs m)
unfolding swap_pairs
IsBlank-swap_pairs [] h i = refl
IsBlank-swap_pairs (c ∷ []) h i = h i
IsBlank-swap_pairs (c ∷ d ∷ m) h zero = h 1
IsBlank-swap_pairs (c ∷ d ∷ m) h (suc zero) = h 0
IsBlank-swap_pairs (c ∷ d ∷ m) h (suc (suc i)) = IsBlank-swap_pairs m (λ i. h (suc (suc i))) i

-- A field that begins with a NUL has no name.
length-tidy : (m : Bytes) → IsBlank m → length (tidy m) < 24
unfolding tidy drop_blanks compact
length-tidy [] h = omega arith
length-tidy (c ∷ m) h = rw (h 0) (omega arith)

inquiry-blank : (m : Bytes) → IsBlank m → length (inquiry_name m) < 24
inquiry-blank m h =
    length-tidy (take 24 (drop 8 m)) (IsBlank-take 24 (drop 8 m) (IsBlank-drop 8 m h))

identify-blank : (m : Bytes) → IsBlank m → length (identify_name m) < 24
identify-blank m h =
    let field = take 24 (drop 54 m) in
    length-tidy (swap_pairs field)
      (IsBlank-swap_pairs field (IsBlank-take 24 (drop 54 m) (IsBlank-drop 54 m h)))

blank_kernel-HasNames : HasNames blank_kernel
blank_kernel-HasNames (hdio_get_identity fd) w e = (0, omega arith, refl)
blank_kernel-HasNames (hdio_drive_cmd fd args) w e = tt
blank_kernel-HasNames (scsi_get_bus_number fd) w e = tt
blank_kernel-HasNames (sg_io fd hdr) w e =
    let blank = IsBlank-replicate hdr.dxfer_len in
    (
      λ q. inquiry-blank (replicate hdr.dxfer_len 0) blank,
      λ q. identify-blank (replicate hdr.dxfer_len 0) blank,
    )
blank_kernel-HasNames (scsi_send_command fd block) w e = λ q.
    let reply : Bytes = replicate (length block) 0 in
    inquiry-blank (take 36 (drop 8 reply))
      (IsBlank-take 36 (drop 8 reply) (IsBlank-drop 8 reply (IsBlank-replicate (length block))))

comment-within : parse_db_line (codes "# none" ++ 0 ∷ []) ≢ overrun
comment-within e =
    let q : parse_db_line (codes "# none" ++ 0 ∷ []) ≡ no_entry =
      parse_db_line-comment [] b'#' (codes " none" ++ 0 ∷ []) tt (inl refl) in
    cc

comment-IsLoadable : IsLoadable (codes "# none" ∷ [])
comment-IsLoadable = (ground arith, omega arith, comment-within, tt)

-- The database is one comment.
abbrev small_platform : Platform (Unit {0}) Bytes Bytes
small_platform = record platform {
  open_database = λ path. some (unlines (codes "# none" ∷ []));
  read = λ n f. (take n f, drop n f);
  fuel = 20;
  garbage = replicate 1024 0;
}

well_behaved : IsWellBehaved blank_kernel small_platform (λ f. f)
well_behaved = record {
  bytes = λ req w. IsBytes-replicate 0 (buffer_size req) (omega arith);
  sizes = record {
    content = λ req w. length-replicate (buffer_size req) 0;
    stack = λ n. length-replicate n 0;
  };
  names = blank_kernel-HasNames;
  regular = record { gives = λ n f. refl; leaves = λ n f. refl };
  databases = λ path. (codes "# none" ∷ [], refl, comment-IsLoadable, omega arith);
  garbage = refl;
}

bus_model-Named_example :
    Post
      (λ m s'. (length m ≤ 40) × Newest (IsModel bus_scsi (some 3) m) s'.world.1)
      (bus_model (heard blank_kernel) bus_scsi (some 3) nothing_heard)
bus_model-Named_example =
    bus_model-Named blank_kernel well_behaved.sizes well_behaved.names bus_scsi 3 nothing_heard
      (λ e. cc) (λ e. cc)

abbrev drives : List Bytes
drives = codes "/dev/sda" ∷ codes "SATA:/dev/sdb" ∷ []

abbrev script_options : Options
script_options = record (initial []) { numeric = true; quiet = true }

abbrev table_options : Options
table_options = record (initial []) { show_db = true }

-- The database has one entry and a comment.
abbrev table_platform : Platform (Unit {0}) Bytes Bytes
table_platform = record small_platform {
  open_database = λ path. some (unlines (line ∷ (b'#' ∷ []) ∷ []));
  fuel = 200;
}

main-ShowsTable_example :
    Post
      (ShowsTable [] (load_lines 0 [] (line ∷ (b'#' ∷ []) ∷ [])))
      (main blank_kernel table_platform ((b'b', []) ∷ []) drives plain_state)
main-ShowsTable_example =
    main-ShowsTable blank_kernel table_platform (λ f. f) ((b'b', []) ∷ []) drives table_options
      (unlines (line ∷ (b'#' ∷ []) ∷ [])) (line ∷ (b'#' ∷ []) ∷ []) plain_state well_behaved.regular
      refl (unfold parse_options option_step parse_rest in refl) (unfold choose_mode in refl) refl
      refl lines-IsLoadable (omega arith)
