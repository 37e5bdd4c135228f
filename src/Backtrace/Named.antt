-- ===== src/Backtrace/Named.antt =====
-- src/backtrace.c: what the report names.
use hddtemp.Prelude.{
  ℕ, Bool, true, false, ◌||◌, [], ◌∷◌, ◌++◌, ◌==◌, ◌≡◌, refl, if◌then◌else◌, Bytes,
}
use hddtemp.Backtrace.{Cases, fall_through, sic_switch}

-- Whether the switch has the label.
abbrev pub has_label : ℕ → Cases → Bool
has_label code [] = false
has_label code ((c, name) ∷ cases) = (code == c) || has_label code cases

fall_through-last :
    (cases : Cases) (code : ℕ) (name strerr : Bytes)
    → fall_through (cases ++ (code, name) ∷ []) strerr ≡ name
unfolding fall_through
fall_through-last [] code name strerr = refl
fall_through-last ((c, n) ∷ cases) code name strerr = fall_through-last cases code name n

if-or :
    {A : Type 0} (b c : Bool) {x y z : A} (w : A)
    → x ≡ z
    → y ≡ (if c then z else w)
    → (if b then x else y) ≡ (if b || c then z else w)
if-or true c w p q = p
if-or false c w p q = q

-- Whichever of its labels the code is, a switch of `SIC_CASE`s names its last label; on any other code the name
-- is that of the call before.
pub sic_switch-last :
    (si_code : ℕ) (cases : Cases) (code : ℕ) (name strerr : Bytes)
    → sic_switch si_code (cases ++ (code, name) ∷ []) strerr
      ≡ (if has_label si_code (cases ++ (code, name) ∷ []) then name else strerr)
unfolding sic_switch
sic_switch-last si_code [] code name strerr =
    elim (si_code == code)
      as (λ b. (if b then name else strerr) ≡ (if b || false then name else strerr)) [
        | true ↦ refl
        | false ↦ refl
      ]
sic_switch-last si_code ((c, n) ∷ cases) code name strerr =
    if-or (si_code == c) (has_label si_code (cases ++ (code, name) ∷ [])) strerr
      (fall_through-last cases code name n) (sic_switch-last si_code cases code name strerr)
