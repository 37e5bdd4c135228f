-- ===== src/Collect/Loop.antt =====
-- src/hddtemp.c: what the loop that collects the disks does, round by round.
use hddtemp.Prelude.{ℕ, Bool, Option, List, [], ◌∷◌, ◌≡◌, refl, ◌⊎◌, Bytes}
use hddtemp.Device.{Kernel, Dev}
use hddtemp.Device.Ensures.{Ensures, Ensures-bind, Ensures-pure, Ensures-weaken}
use hddtemp.Device.Kept.{Any, Ensures-given}
use hddtemp.Collect.{Collecting, Round, next, exit, collect_next, collect}
use hddtemp.Collect.Rounds.{Adds, drive_of, HasModelsOf, HasSafeLoad, collect_disk-Adds}

-- The rounds of the loop, one for each argument.
abbrev pub AddsAll : (Bytes → Type 0) → List Bytes → Collecting → Round → Type 0
AddsAll M args st (exit status) = (status ≡ 2) ⊎ (status ≡ 254)
AddsAll M [] st (next st') = st' ≡ st
AddsAll M (arg ∷ args) st (next st') =
    (st₁ : Collecting) × (Adds M (drive_of arg) st (next st₁) × AddsAll M args st₁ (next st'))

module _ (M : Bytes → Type 0) {W R F : Type 0} (k : Kernel W)
    (open_file : Bytes → W → (Option ℕ × ℕ) × W) (regcomp : Bytes → Option R)
    (regexec : R → Bytes → Bool) (read : ℕ → F → Bytes × F) (fuel : ℕ) (garbage : Bytes)
    (file : Option F) (loads : HasSafeLoad M k open_file regcomp regexec read fuel garbage file)
    (models : HasModelsOf M k open_file regcomp regexec read fuel garbage file) where
  AddsAll-next :
      (arg : Bytes) (args : List Bytes) (st st' : Collecting) (r : Round)
      → Adds M (drive_of arg) st (next st')
      → AddsAll M args st' r
      → AddsAll M (arg ∷ args) st r
  AddsAll-next arg args st st' (next st'') h all = (st', (h, all))
  AddsAll-next arg args st st' (exit status) h all = all

  collect_next-AddsAll :
      (arg : Bytes) (args : List Bytes) (st : Collecting) (rest : Collecting → Dev W Round)
      (round : Round)
      → ((st' : Collecting) → Ensures Any (rest st') (λ r s. AddsAll M args st' r))
      → Adds M (drive_of arg) st round
      → Ensures Any
          (collect_next k open_file regcomp regexec read fuel garbage file round rest)
          (λ r s. AddsAll M (arg ∷ args) st r)
  unfolding collect_next
  collect_next-AddsAll arg args st rest (next st') f h =
      Ensures-weaken (f st') λ r s all. AddsAll-next arg args st st' r h all
  collect_next-AddsAll arg args st rest (exit status) f h = Ensures-pure _ (λ s q. h)

  pub collect-AddsAll :
      (args : List Bytes) (st : Collecting)
      → Ensures Any
          (collect k open_file regcomp regexec read fuel garbage file args st)
          (λ round s. AddsAll M args st round)
  unfolding collect
  collect-AddsAll [] st = Ensures-pure _ (λ s q. refl)
  collect-AddsAll (arg ∷ args) st =
      Ensures-bind
        (collect_disk-Adds M k open_file regcomp regexec read fuel garbage file loads models st arg)
        λ round.
          Ensures-given
            λ r. collect_next-AddsAll arg args st _ round (λ st'. collect-AddsAll args st') r
