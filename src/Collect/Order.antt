-- ===== src/Collect/Order.antt =====
-- The disks that `main` collects, in the order of the arguments.
use hddtemp.Prelude.{
  ℕ, Bool, false, Option, List, [], ◌∷◌, ◌++◌, ◌≡◌, refl, ap, ◌∙◌, ◌⊎◌, inl, inr, Bytes, append-nil,
}
use hddtemp.Db.{HarddriveEntry}
use hddtemp.Db.Load.{load_database}
use hddtemp.Db.Load.Spec.{IsSafeLoad}
use hddtemp.Device.{Disk, Kernel, Sys}
use hddtemp.Device.Ensures.{Post, Ensures-weaken}
use hddtemp.Collect.{Collecting, Round, next, exit, collect, backwards}
use hddtemp.Collect.Rounds.{Adds, drive_of}
use hddtemp.Collect.Loop.{AddsAll, collect-AddsAll}
use hddtemp.Collect.Served.{HasModels}

abbrev pub names : List Disk → List Bytes
names [] = []
names (d ∷ ds) = d.drive ∷ names ds

-- The drives of the arguments, the last argument first, in front of others.
abbrev pub names_onto : List Bytes → List Bytes → List Bytes
names_onto [] l = l
names_onto (arg ∷ args) l = names_onto args (drive_of arg ∷ l)

module _ (M : Bytes → Type 0) where
  -- A round that has not failed has put a disk with this drive in front of the others.
  Adds-names :
      (drive : Bytes) (st st' : Collecting)
      → Adds M drive st (next st')
      → st'.failed ≡ false
      → (st.failed ≡ false) × (names st'.disks ≡ drive ∷ names st.disks)
  Adds-names drive st st' (inl (f, e)) q = cc
  Adds-names drive st st' (inr (dsk, (c, e, f))) q = (f q, ap names e ∙ rw c.named refl)

  AddsAll-names :
      (args : List Bytes) (st st' : Collecting)
      → AddsAll M args st (next st')
      → st'.failed ≡ false
      → (st.failed ≡ false) × (names st'.disks ≡ names_onto args (names st.disks))
  AddsAll-names [] st st' all q = (rw (← all) q, rw all refl)
  AddsAll-names (arg ∷ args) st st' (st₁, (r, all)) q =
      let rest : (st₁.failed ≡ false) × (names st'.disks ≡ names_onto args (names st₁.disks)) =
        AddsAll-names args st₁ st' all q in
      let this : (st.failed ≡ false) × (names st₁.disks ≡ drive_of arg ∷ names st.disks) =
        Adds-names (drive_of arg) st st₁ r rest.0 in
      (this.0, rest.1 ∙ ap (names_onto args) this.1)

abbrev pub drives_of_all : List Bytes → List Bytes
drives_of_all [] = []
drives_of_all (arg ∷ args) = drive_of arg ∷ drives_of_all args

pub names_onto-backwards :
    (args acc : List Bytes) (l : List Bytes)
    → names_onto (backwards args acc) l ≡ names_onto acc (drives_of_all args ++ l)
names_onto-backwards [] acc l = refl
names_onto-backwards (arg ∷ args) acc l = names_onto-backwards args (arg ∷ acc) l

-- A loop that has not failed has the drives of all arguments, in their order. One that ends the program does
-- so for the database.
abbrev pub IsComplete : List Bytes → Round → Type 0
IsComplete args (next st) = st.failed ≡ false → names st.disks ≡ drives_of_all args
IsComplete args (exit status) = (status ≡ 2) ⊎ (status ≡ 254)

pub AddsAll-IsComplete :
    (M : Bytes → Type 0) (args : List Bytes) (drives : Option (List HarddriveEntry)) (round : Round)
    → AddsAll M (backwards args []) (record { drives = drives; disks = []; failed = false }) round
    → IsComplete args round
AddsAll-IsComplete M args drives (next st) h = λ q.
    (AddsAll-names M (backwards args []) _ st h q).1
    ∙ names_onto-backwards args [] []
    ∙ append-nil (drives_of_all args)
AddsAll-IsComplete M args drives (exit status) h = h

-- When the models of drives of a known type can be read, and the database is read without a step behind the
-- loader's buffer, the loop of `main` returns. Either the program has then ended with 2 or 254, or `ret` is
-- 1, or there is a disk for every argument, in their order, with the drive that the argument names.
pub collect-IsComplete :
    {W R F : Type 0} (k : Kernel W) (open_file : Bytes → W → (Option ℕ × ℕ) × W)
    (regcomp : Bytes → Option R) (regexec : R → Bytes → Bool) (read : ℕ → F → Bytes × F) (fuel : ℕ)
    (garbage : Bytes) (file : Option F)
    → IsSafeLoad (load_database read fuel garbage file [])
    → HasModels k open_file regcomp regexec read fuel garbage file
    → (args : List Bytes) (drives : Option (List HarddriveEntry)) (s : Sys W)
    → Post
        (λ round s'. IsComplete args round)
        (collect k open_file regcomp regexec read fuel garbage file
          (backwards args [])
          (record { drives = drives; disks = []; failed = false })
          s)
collect-IsComplete k open_file regcomp regexec read fuel garbage file loads models args drives s =
    (Ensures-weaken
        (collect-AddsAll (λ m. Unit {0}) k open_file regcomp regexec read fuel garbage file loads
          models (backwards args []) _)
        (λ round s'. AddsAll-IsComplete (λ m. Unit {0}) args drives round)).at
      s tt
