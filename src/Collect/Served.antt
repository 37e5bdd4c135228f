-- ===== src/Collect/Served.antt =====
-- The disks that `main` collects can be served.
use mathlib.Core.Path.{subst}
use hddtemp.Prelude.{ℕ, Option, some, List, [], ◌∷◌, ◌≡◌, ◌≢◌, ◌⊎◌, sym, inl, inr, Bytes, Bool}
use hddtemp.Db.Load.{load_database}
use hddtemp.Db.Load.Spec.{IsSafeLoad}
use hddtemp.Device.{BusType, error, bus_unknown, Kernel, Sys}
use hddtemp.Device.Ensures.{Post, Ensures-weaken}
use hddtemp.Device.Kept.{Runs}
use hddtemp.Hddtemp.{bus_model}
use hddtemp.Hddtemp.Served.{AllServed}
use hddtemp.Collect.{Collecting, Round, next, exit, collect}
use hddtemp.Collect.Rounds.{Adds, drive_of}
use hddtemp.Collect.Loop.{AddsAll, collect-AddsAll}

-- The disks so far, unless the program has ended, with one of two statuses.
abbrev pub RoundServed : Round → Type 0
RoundServed (next st) = AllServed st.disks
RoundServed (exit status) = (status ≡ 2) ⊎ (status ≡ 254)

module _ (M : Bytes → Type 0) where
  Adds-served :
      (drive : Bytes) (st st' : Collecting)
      → AllServed st.disks
      → Adds M drive st (next st')
      → AllServed st'.disks
  Adds-served drive st st' h (inl (f, e)) = subst AllServed (sym e) h
  Adds-served drive st st' h (inr (dsk, (c, e, f))) = subst AllServed (sym e) (c.served, h)

  pub AddsAll-served :
      (args : List Bytes) (st : Collecting) (round : Round)
      → AllServed st.disks
      → AddsAll M args st round
      → RoundServed round
  AddsAll-served args st (exit status) h all = all
  AddsAll-served [] st (next st') h all = rw all h
  AddsAll-served (arg ∷ args) st (next st') h (st₁, (r, all)) =
      AddsAll-served args st₁ (next st') (Adds-served (drive_of arg) st st₁ h r) all

module _ {W R F : Type 0} (k : Kernel W) (open_file : Bytes → W → (Option ℕ × ℕ) × W)
    (regcomp : Bytes → Option R) (regexec : R → Bytes → Bool) (read : ℕ → F → Bytes × F) (fuel : ℕ)
    (garbage : Bytes) (file : Option F) where
  -- The models are strings that end in the buffers that the kernel fills.
  abbrev pub HasModels : Type 0
  HasModels =
      (bus : BusType) (fd : ℕ) → bus ≢ error → bus ≢ bus_unknown → Runs (bus_model k bus (some fd))

  module _ (loads : IsSafeLoad (load_database read fuel garbage file [])) (models : HasModels) where
    -- When the models of drives of a known type can be read, and the database is read without a step behind
    -- the loader's buffer, the loop of `main` that collects the disks returns, whatever else the kernel
    -- answers: the program has then ended with 2 or 254, or every disk is one that
    -- could not be opened or that has a known type, a model and, but on the SCSI bus, a database entry.
    pub collect-AllServed :
        (args : List Bytes) (st : Collecting) (s : Sys W)
        → AllServed st.disks
        → Post
            (λ round s'. RoundServed round)
            (collect k open_file regcomp regexec read fuel garbage file args st s)
    collect-AllServed args st s h =
        (Ensures-weaken
            (collect-AddsAll (λ m. Unit {0}) k open_file regcomp regexec read fuel garbage file
              loads models args st)
            (λ round s'. AddsAll-served (λ m. Unit {0}) args st round h)).at
          s tt
