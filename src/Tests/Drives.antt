-- ===== src/Tests/Drives.antt =====
-- The drivers on a small kernel, and the names and tables of a drive.
use hddtemp.Prelude.{some, ℕ, ◌-◌, false, [], ◌∷◌, ◌++◌, ◌≡◌, refl, Bytes, length, replicate, arith}
use hddtemp.Device.Ensures.{Post}
use hddtemp.Device.Log.{logged, IsHarmless, IsPowerMode, Fate}
use hddtemp.FixString.{scsi_fixstring, sata_fixstring, swap_pairs}
use hddtemp.FixString.Spec.{IsTidy, words}
use hddtemp.FixString.Refine.{scsi_fixstring-IsTidy, sata_fixstring-IsTidy}
use hddtemp.Smart.{swap_words, ata_search_temperature, sata_search_temperature}
use hddtemp.Smart.Raw.{IsBytes, raw_value, field_value, search_temperature-raw_value}
use hddtemp.Ata.{ata_get_temperature}
use hddtemp.Ata.Outcome.{ata_get_temperature-Fate}
use hddtemp.Sata.{sata_get_temperature}
use hddtemp.Sata.Outcome.{sata_get_temperature-Fate}
use hddtemp.Hddtemp.{probe_bus_type}
use hddtemp.Hddtemp.Reading.{OnlyReads, probe_bus_type-OnlyReads}
use hddtemp.Tests.Kernel.{test_kernel, test_disk, test_entry, test_flags, test_state}

ata_get_temperature-Fate_example :
    Post
      (Fate (IsHarmless test_disk.fd) test_flags test_disk)
      (ata_get_temperature (logged test_kernel) test_flags test_disk test_state)
ata_get_temperature-Fate_example =
    ata_get_temperature-Fate test_kernel test_flags test_disk test_entry test_state refl refl

sata_get_temperature-Fate_example :
    Post
      (Fate (IsPowerMode test_disk.fd) test_flags test_disk)
      (sata_get_temperature (logged test_kernel) test_flags test_disk test_state)
sata_get_temperature-Fate_example =
    sata_get_temperature-Fate test_kernel test_flags test_disk test_entry test_state refl refl

IsBytes-replicate : (n : ℕ) → IsBytes (replicate n 0)
IsBytes-replicate ℕ.zero = tt
IsBytes-replicate (ℕ.suc n) = (omega arith, IsBytes-replicate n)

-- An attribute 194 with the raw value 35, behind the two bytes of the version.
abbrev table : Bytes
table = 0 ∷ 0 ∷ 194 ∷ 0 ∷ 0 ∷ 0 ∷ 0 ∷ 35 ∷ replicate 504 0

table-IsBytes : IsBytes table
table-IsBytes =
    let rest : IsBytes (replicate 504 0) = IsBytes-replicate 504 in
    (
      omega arith,
      (
        omega arith,
        (
          omega arith,
          (omega arith, (omega arith, (omega arith, (omega arith, (omega arith, rest))))),
        ),
      ),
    )

search_temperature-raw_value_example :
    (field_value (swap_words 256 table) (ata_search_temperature false (swap_words 256 table) 194).0
      ≡ raw_value table 194 30 2)
    × (field_value
          (swap_words 256 table)
          (sata_search_temperature false (swap_words 256 table) 194).0
        ≡ raw_value table 194 30 2)
search_temperature-raw_value_example = search_temperature-raw_value table 194 refl table-IsBytes

scsi_fixstring-IsTidy_example :
    (name : Bytes) × IsTidy name
    × (words name ≡ words (b'A' ∷ b' ' ∷ b' ' ∷ b'B' ∷ []))
    × (scsi_fixstring (b'A' ∷ b' ' ∷ b' ' ∷ b'B' ∷ 7 ∷ []) 4
        ≡ name ++ (replicate (4 - length name) 0 ++ 7 ∷ []))
scsi_fixstring-IsTidy_example = scsi_fixstring-IsTidy (b'A' ∷ b' ' ∷ b' ' ∷ b'B' ∷ []) (7 ∷ [])

sata_fixstring-IsTidy_example :
    (name : Bytes) × IsTidy name
    × (words name ≡ words (swap_pairs (b'B' ∷ b'A' ∷ [])))
    × (sata_fixstring (b'B' ∷ b'A' ∷ 7 ∷ []) 2 ≡ name ++ (replicate (2 - length name) 0 ++ 7 ∷ []))
sata_fixstring-IsTidy_example = sata_fixstring-IsTidy (b'B' ∷ b'A' ∷ []) (7 ∷ []) refl

probe_bus_type-OnlyReads_example :
    Post
      (λ bus s'. OnlyReads test_kernel s')
      (probe_bus_type (logged test_kernel) (some 3) test_state)
probe_bus_type-OnlyReads_example = probe_bus_type-OnlyReads test_kernel (some 3) test_state tt
