-- ===== src/SataCmds.antt =====
-- src/satacmds.c: ATA commands through the SCSI layer. (`sata_fixstring` is in FixString.)
use hddtemp.Prelude.{ℕ, ◌*◌, not, Option, [], ◌∷◌, ◌==◌, if◌then◌else◌, Bytes, get_or}
use hddtemp.Device.{Kernel, Dev, ◌>>=◌, pure}
use hddtemp.AtaCmds.{win_smart, smart_enable, smart_read_values}
use hddtemp.ScsiCmds.{Direction, dxfer_none, dxfer_from_dev, scsi_sg_io}

-- The four bytes of `cmd`.
pub record Cmd : Type 0 where
  pub c₀ : ℕ
  pub c₁ : ℕ
  pub c₂ : ℕ
  pub c₃ : ℕ

-- The command block of `sata_pass_thru`.
unfoldable pub pass_thru_cdb : Cmd → Bytes
pass_thru_cdb cmd =
    let smart = cmd.c₀ == win_smart in
    0x85
    ∷ (if not (cmd.c₃ == 0) then 8 else 6)
    ∷ (if not (cmd.c₃ == 0) then 0x2e else 0x20)
    ∷ 0
    ∷ cmd.c₂
    ∷ 0
    ∷ (if smart then cmd.c₃ else cmd.c₁)
    ∷ 0
    ∷ (if smart then cmd.c₁ else 0)
    ∷ 0
    ∷ (if smart then 0x4f else 0)
    ∷ 0
    ∷ (if smart then 0xc2 else 0)
    ∷ 0
    ∷ cmd.c₀
    ∷ 0
    ∷ []

abbrev pub pass_thru_direction : Cmd → Direction
pass_thru_direction cmd = if not (cmd.c₃ == 0) then dxfer_from_dev else dxfer_none

module _ {W : Type 0} (k : Kernel W) where
  -- The result, and what the buffer then holds. The first sense byte is the magic of SATA.
  unfoldable pub sata_pass_thru : Option ℕ → Cmd → Dev W (ℕ × Bytes)
  unfolding pass_thru_cdb
  sata_pass_thru device cmd = do
    r ← scsi_sg_io k device (pass_thru_cdb cmd) (cmd.c₃ * 512) 32 (pass_thru_direction cmd)
    pure (if not (get_or r.sense 0 0 == 0x72) then 1 else r.ret, r.content)

  unfoldable pub sata_enable_smart : Option ℕ → Dev W ℕ
  unfolding sata_pass_thru
  sata_enable_smart device = do
    r ← sata_pass_thru device (record { c₀ = win_smart; c₁ = 0; c₂ = smart_enable; c₃ = 0 })
    pure r.0

  unfoldable pub sata_get_smart_values : Option ℕ → Dev W (ℕ × Bytes)
  unfolding sata_pass_thru
  sata_get_smart_values device =
      sata_pass_thru device (record { c₀ = win_smart; c₁ = 0; c₂ = smart_read_values; c₃ = 1 })
