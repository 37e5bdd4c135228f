-- ===== src/AtaCmds.antt =====
-- src/atacmds.c: the commands of a drive on the ATA bus.
use hddtemp.Prelude.{
  ℕ, ◌+◌, ◌*◌, Bool, not, ◌&&◌, ◌||◌, Option, [], ◌∷◌, ◌==◌, if◌then◌else◌, Bytes, take, drop,
  get_or, replicate, bit_and,
}
use hddtemp.Device.{
  PowerMode, pwm_unknown, pwm_active, pwm_sleeping, pwm_standby, hdio_get_identity, hdio_drive_cmd,
  Kernel, Dev, ◌>>=◌, pure, get_errno, ioctl,
}

-- linux/hdreg.h and errno.h
abbrev pub win_smart : ℕ
win_smart = 0xb0

abbrev pub win_identify : ℕ
win_identify = 0xec

abbrev pub smart_enable : ℕ
smart_enable = 0xd8

abbrev pub smart_read_values : ℕ
smart_read_values = 0xd0

abbrev pub win_checkpowermode1 : ℕ
win_checkpowermode1 = 0xe5

abbrev pub win_checkpowermode2 : ℕ
win_checkpowermode2 = 0x98

abbrev pub eio : ℕ
eio = 5

module _ {W : Type 0} (k : Kernel W) where
  unfoldable pub ata_enable_smart : Option ℕ → Dev W ℕ
  ata_enable_smart device = do
    r ← ioctl k (hdio_drive_cmd device (win_smart ∷ 0 ∷ smart_enable ∷ 0 ∷ []))
    pure r.ret

  -- The result, and the 512 bytes that are copied to the caller's buffer on success.
  unfoldable pub ata_get_smart_values : Option ℕ → Dev W (ℕ × Bytes)
  ata_get_smart_values device = do
    let cmd = win_smart ∷ 0 ∷ smart_read_values ∷ 1 ∷ replicate 512 0
    r ← ioctl k (hdio_drive_cmd device cmd)
    pure (r.ret, take 512 (drop 4 r.content))

  -- The state that the bytes of a check that succeeded tell.
  power_state : Bytes → PowerMode
  power_state args = if get_or args 2 0 == 0xff then pwm_active else pwm_standby

  -- The state after both checks failed.
  power_failure : Bytes → ℕ → PowerMode
  power_failure args errno =
      if not (errno == eio) || (not (get_or args 0 0 == 0) || not (get_or args 1 0 == 0))
      then pwm_unknown
      else pwm_sleeping

  -- `args[0] = WIN_CHECKPOWERMODE2` leaves the other bytes as the first check returned them.
  unfoldable pub ata_get_powermode : Option ℕ → Dev W PowerMode
  unfolding power_state power_failure
  ata_get_powermode device = do
    first ← ioctl k (hdio_drive_cmd device (win_checkpowermode1 ∷ 0 ∷ 0 ∷ 0 ∷ []))
    if first.ret == 0 then pure (power_state first.content) else do
      second ← ioctl k (hdio_drive_cmd device (win_checkpowermode2 ∷ drop 1 first.content))
      errno ← get_errno
      pure (
          if second.ret == 0
          then power_state second.content
          else power_failure second.content errno)

  -- `buf[0] & 0x8000`, where `buf` holds words with the low byte first.
  unfoldable pub ata_get_packet : Option ℕ → Dev W Bool
  ata_get_packet device = do
    r ← ioctl k (hdio_get_identity device)
    let word = get_or r.content 0 0 + 256 * get_or r.content 1 0
    pure (r.ret == 0 && not (bit_and word 0x8000 == 0))
