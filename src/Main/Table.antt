-- ===== src/Main/Table.antt =====
-- src/hddtemp.c: `main` with -b shows the database.
use hddtemp.Prelude.{ℕ, ◌<◌, some, List, [], ◌++◌, ◌≡◌, refl, Bytes, length}
use hddtemp.Db.Load.{
  Loaded, loaded, cannot_open, bad_line, line_too_long, buffer_overrun, out_of_fuel, max_line_len,
}
use hddtemp.Db.Load.Lines.{unlines}
use hddtemp.Db.Load.Spec.{IsSafeLoad, IsLoadable, load_lines}
use hddtemp.Db.Load.Total.{IsRegular, load_database-load_lines}
use hddtemp.Db.Lookup.{display_supported_drives}
use hddtemp.Db.Lookup.Rows.{IsTable, display_supported_drives-IsTable}
use hddtemp.Device.{Kernel, Sys, ◌>>=◌}
use hddtemp.Device.Ensures.{Post}
use hddtemp.Options.{Options, initial, parsed, parse_options, database_mode, choose_mode}
use hddtemp.Main.{Platform, Ended, exited, show_database, run_mode, run_parsed, main}
use hddtemp.Main.WellBehaved.{load_lines-IsSafeLoad}

-- The end of the program with what the loader gives, after `out` was printed: the table of the drives
-- and 0, or nothing and 2.
abbrev pub ShowsTable : {W : Type 0} → Bytes → Loaded → Ended → Sys W → Type 0
ShowsTable out (loaded drives) e s =
    (e ≡ exited 0) × (text : Bytes) × ((s.stdout ≡ out ++ text) × IsTable drives text)
ShowsTable out _ e s = (e ≡ exited 2) × (s.stdout ≡ out)

module _ {W R F : Type 0} (k : Kernel W) (p : Platform W R F) where
  show_database-ShowsTable :
      (l : Loaded) (s : Sys W) → IsSafeLoad l → Post (ShowsTable s.stdout l) (show_database k p l s)
  unfolding show_database ◌>>=◌
  show_database-ShowsTable (loaded drives) s h =
      (refl, display_supported_drives drives, (refl, display_supported_drives-IsTable drives))
  show_database-ShowsTable cannot_open s h = (refl, refl)
  show_database-ShowsTable (bad_line n) s h = (refl, refl)
  show_database-ShowsTable line_too_long s h = (refl, refl)
  show_database-ShowsTable buffer_overrun s h = absurd h
  show_database-ShowsTable out_of_fuel s h = absurd h

  -- When `main` chooses to show the database, whose file is read from its start to its end and holds
  -- lines that all fit the loader's buffer with their newline and hold no string that runs on behind the
  -- line, with fuel for more rounds than it has bytes: `main` exits with 0 and has printed a heading, a
  -- rule and one row for the entry of each line that holds one, in the file's order, each with the regexp, a
  -- bar at the column of the heading's, the number and the description; or it exits with 2 at the first line
  -- that is refused and has printed nothing on the standard output.
  pub main-ShowsTable :
      (content : F → Bytes) (options : List (ℕ × Bytes)) (args : List Bytes) (o : Options)
      (file : F) (lines : List Bytes) (s : Sys W)
      → IsRegular p.read content
      → length p.garbage ≡ max_line_len
      → parse_options p.strtol options (initial p.path) ≡ parsed o
      → choose_mode o (length args) ≡ database_mode
      → p.open_database o.database_path ≡ some file
      → content file ≡ unlines lines
      → IsLoadable lines
      → length (content file) < p.fuel
      → Post (ShowsTable s.stdout (load_lines 0 [] lines)) (main k p options args s)
  unfolding main run_parsed run_mode
  main-ShowsTable content options args o file lines s r g e c f q l lt =
      rw
        (
          e,
          run_parsed,
          c,
          run_mode,
          f,
          load_database-load_lines p.read content r p.fuel p.garbage file lines g q l lt,
        )
        (show_database-ShowsTable (load_lines 0 [] lines) s (load_lines-IsSafeLoad 0 [] lines l))
