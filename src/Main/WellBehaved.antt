-- ===== src/Main/WellBehaved.antt =====
-- src/hddtemp.c: how `main` ends, on a kernel and files that behave well.
use hddtemp.Prelude.{
  ℕ, ◌+◌, ◌<◌, Option, none, some, List, [], ◌∷◌, ◌++◌, ◌≡◌, ◌≢◌, refl, Bytes, length,
}
use hddtemp.Db.{HarddriveEntry}
use hddtemp.Db.Line.{no_entry, syntax_error, entry, overrun}
use hddtemp.Db.Load.{max_line_len, bad_line, buffer_overrun}
use hddtemp.Db.Load.Lines.{unlines}
use hddtemp.Db.Load.Spec.{IsSafeLoad, IsLoadable, load_lines, parse_alone}
use hddtemp.Db.Load.Total.{IsRegular}
use hddtemp.Device.{Kernel}
use hddtemp.Device.Heard.{HasSizes}
use hddtemp.Smart.Small.{HasBytes}
use hddtemp.Hddtemp.Models.Rules.{HasNames}
use hddtemp.Options.{Options}
use hddtemp.Main.{Platform}

-- A database that does not open, or whose lines the loader takes whole, with fuel enough.
abbrev IsDatabase : {F : Type 0} → (F → Bytes) → ℕ → Option F → Type 0
IsDatabase content fuel none = Unit {0}
IsDatabase content fuel (some file) =
    (lines : List Bytes) × (content file ≡ unlines lines)
    × IsLoadable lines
    × (length (content file) < fuel)

pub load_lines-IsSafeLoad :
    (n : ℕ) (entries : List HarddriveEntry) (lines : List Bytes)
    → IsLoadable lines
    → IsSafeLoad (load_lines n entries lines)
unfolding load_lines
load_lines-IsSafeLoad n entries [] h = tt
load_lines-IsSafeLoad n entries (line ∷ lines) h =
    elim (parse_alone line)
        as (λ r.
          r ≢ overrun
          → IsSafeLoad (elim r [
            | no_entry ↦ load_lines (n + 1) entries lines
            | syntax_error ↦ bad_line (n + 1)
            | entry e mem ↦ load_lines (n + 1) (entries ++ e ∷ []) lines
            | overrun ↦ buffer_overrun
          ])) [
            | no_entry ↦ λ f. load_lines-IsSafeLoad (n + 1) entries lines h.3
            | syntax_error ↦ λ f. tt
            | entry e mem ↦ λ f. load_lines-IsSafeLoad (n + 1) (entries ++ e ∷ []) lines h.3
            | overrun ↦ λ f. f refl
          ]
      h.2

module _ {W R F : Type 0} (k : Kernel W) (p : Platform W R F) (content : F → Bytes) where
  -- What is asked of the kernel: replies of bytes, as long as the buffers; and of the drives, which need not
  -- do so, that the name in a reply that succeeds leaves room for a NUL.
  pub record IsWellBehaved : Type 0 where
    pub bytes : HasBytes k
    pub sizes : HasSizes k
    pub names : HasNames k
    -- Of files: they are read from their start to their end, and the databases hold lines
    pub regular : IsRegular p.read content
    pub databases : (path : Bytes) → IsDatabase content p.fuel (p.open_database path)
    -- Of the loader's buffer, its size.
    pub garbage : length p.garbage ≡ max_line_len
