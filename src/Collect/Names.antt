-- ===== src/Collect/Names.antt =====
-- The bus types that the arguments force.
use hddtemp.Prelude.{
  ℕ, suc, false, some, [], ◌∷◌, ◌++◌, ◌==◌, ◌≡◌, ◌≢◌, refl, sym, ap, Bytes, length, arith, inl, inr,
  Bool-cases,
}
use hddtemp.Device.{BusType, error, bus_unknown, bus_sata, bus_ata, bus_scsi}
use hddtemp.Collect.{split_colon, toupper, upper, strncmp_eq, bus_name, force_type, parse_argument}

abbrev pub HasNoColon : Bytes → Type 0
HasNoColon [] = Unit {0}
HasNoColon (c ∷ text) = (c == b':' ≡ false) × HasNoColon text

-- The types that a name stands for.
abbrev pub IsNamed : BusType → Type 0
IsNamed error = ⊥
IsNamed bus_unknown = ⊥
IsNamed bus_sata = Unit {0}
IsNamed bus_ata = Unit {0}
IsNamed bus_scsi = Unit {0}

split_colon-append :
    (text drive : Bytes) → HasNoColon text → split_colon (text ++ b':' ∷ drive) ≡ some (text, drive)
unfolding split_colon
split_colon-append [] drive h = refl
split_colon-append (c ∷ text) drive h = rw (h.0, split_colon-append text drive h.1) refl

toupper-colon : (c : ℕ) → toupper c == b':' ≡ false → c == b':' ≡ false
toupper-colon c h = ground arith

upper-HasNoColon : (text : Bytes) → HasNoColon (upper text) → HasNoColon text
upper-HasNoColon [] h = tt
upper-HasNoColon (c ∷ text) h = (toupper-colon c h.0, upper-HasNoColon text h.1)

length-upper : (text : Bytes) → length (upper text) ≡ length text
length-upper [] = refl
length-upper (c ∷ text) = ap suc (length-upper text)

bus_name-HasNoColon : (bus : BusType) → HasNoColon (bus_name bus)
bus_name-HasNoColon error = tt
bus_name-HasNoColon bus_unknown = tt
bus_name-HasNoColon bus_sata = (refl, (refl, (refl, (refl, tt))))
bus_name-HasNoColon bus_ata = (refl, (refl, (refl, (refl, tt))))
bus_name-HasNoColon bus_scsi = (refl, (refl, (refl, (refl, tt))))

force_type-bus_name :
    (bus : BusType) (drive : Bytes)
    → IsNamed bus
    → force_type (bus_name bus ++ b':' ∷ drive) (length (bus_name bus)) ≡ bus
unfolding force_type strncmp_eq
force_type-bus_name error drive h = absurd h
force_type-bus_name bus_unknown drive h = absurd h
force_type-bus_name bus_sata drive h = refl
force_type-bus_name bus_ata drive h = refl
force_type-bus_name bus_scsi drive h = refl

-- An argument that is the name of a bus in letters of either case, a colon and a drive forces the type
-- of that bus, and names that drive.
pub parse_argument-bus_name :
    (bus : BusType) (text drive : Bytes)
    → IsNamed bus
    → upper text ≡ bus_name bus
    → parse_argument (text ++ b':' ∷ drive) ≡ (bus, drive)
unfolding parse_argument
parse_argument-bus_name bus text drive n h =
    rw
      (
        split_colon-append text drive (upper-HasNoColon text (rw h (bus_name-HasNoColon bus))),
        parse_argument,
      )
      (rw (h, sym (length-upper text))
        (rw h (ap (λ b. (b, drive)) (force_type-bus_name bus drive n))))

-- A single byte that is no colon, in front of a colon, forces the type SATA, whichever byte it is.
pub parse_argument-one_byte :
    (c : ℕ) (drive : Bytes) → c ≢ b':' → parse_argument (c ∷ b':' ∷ drive) ≡ (bus_sata, drive)
unfolding parse_argument split_colon force_type strncmp_eq
parse_argument-one_byte c drive h = elim (Bool-cases (c == b':')) [
  | inl q ↦ absurd (h (ground arith))
  | inr q ↦ rw (q, split_colon, parse_argument) refl
]
