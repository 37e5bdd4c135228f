-- ===== src/ScsiCmds.antt =====
-- src/scsicmds.c: the commands of a drive behind the SCSI layer. (`scsi_fixstring` is in FixString.)
use hddtemp.Prelude.{
  ℕ, ◌+◌, ◌/◌, ◌%◌, Bool, not, ◌&&◌, Option, some, [], ◌∷◌, ◌++◌, ◌==◌, if◌then◌else◌, ltb, Bytes,
  take, drop, get_or, set, length, bit_and,
}
use Prim.Native.Nat.{bit_or}
use hddtemp.Prelude.Int.{ℤ, negsuc}
use hddtemp.Device.{
  sg_io, scsi_send_command as send_request, Reply, Kernel, SgSupport, untried, unsupported,
  supported, Dev, ◌>>=◌, ◌>>◌, pure, ioctl, minus_one,
}
use hddtemp.FixString.{scsi_fixstring}

-- scsi/scsi.h, scsi/sg.h and src/scsicmds.h
abbrev pub inquiry : ℕ
inquiry = 0x12

abbrev pub mode_sense : ℕ
mode_sense = 0x1a

abbrev pub mode_select : ℕ
mode_select = 0x15

abbrev pub log_sense : ℕ
log_sense = 0x4d

abbrev pub support_log_pages : ℕ
support_log_pages = 0x00

abbrev pub temperature_page : ℕ
temperature_page = 0x0d

abbrev pub exceptions_control_page : ℕ
exceptions_control_page = 0x1c

-- SG_DXFER_NONE, SG_DXFER_TO_DEV and SG_DXFER_FROM_DEV
pub data Direction : Type 0 where
  dxfer_none dxfer_to_dev dxfer_from_dev : Direction

abbrev pub direction_code : Direction → ℤ
direction_code dxfer_none = negsuc 0
direction_code dxfer_to_dev = negsuc 1
direction_code dxfer_from_dev = negsuc 2

-- The bytes of an `unsigned int`, low byte first.
abbrev pub int_bytes : ℕ → Bytes
int_bytes n = n % 256 ∷ n / 256 % 256 ∷ n / 65536 % 256 ∷ n / 16777216 % 256 ∷ []

-- `inbufsize` and `outbufsize`
abbrev inbufsize : Direction → ℕ → ℕ
inbufsize dxfer_to_dev buffer_len = buffer_len
inbufsize _ buffer_len = 0

abbrev outbufsize : Direction → ℕ → ℕ
outbufsize dxfer_from_dev buffer_len = buffer_len
outbufsize _ buffer_len = 0

module _ {W : Type 0} where
  unfoldable pub get_sg_support : Dev W SgSupport
  get_sg_support s = some (s.sg_support, s)

  unfoldable pub set_sg_support : SgSupport → Dev W (Unit {0})
  set_sg_support v s = some (tt, record s { sg_support = v })

module _ {W : Type 0} (k : Kernel W) where
  unfoldable pub scsi_sg_io : Option ℕ → Bytes → ℕ → ℕ → Direction → Dev W Reply
  scsi_sg_io device cdb buffer_len sense_len dir = ioctl k (
      sg_io device (record {
        interface_id = b'S';
        cmdp = cdb;
        dxfer_len = buffer_len;
        mx_sb_len = sense_len;
        dxfer_direction = direction_code dir;
        timeout = 3000;
      }))

  -- The result, and what the buffer then holds. The command's block has 2048 bytes: the two sizes,
  -- the command, the data, and what the stack held behind them.
  unfoldable pub scsi_send_command : Option ℕ → Bytes → Bytes → Direction → Dev W (ℕ × Bytes)
  scsi_send_command device cdb buffer dir = do
    let n = length buffer
    let head = int_bytes (inbufsize dir n) ++ (int_bytes (outbufsize dir n) ++ (cdb ++ buffer))
    let block = head ++ drop (length head) (k.stack 2048)
    r ← ioctl k (send_request device block)
    pure (r.ret, take n (drop 8 r.content))

  -- `scsi_command`, by the value of `SG_IO_supported`.
  unfoldable pub with_support : Option ℕ → Bytes → Bytes → Direction → SgSupport → Dev W (ℕ × Bytes)
  unfolding scsi_sg_io scsi_send_command
  with_support device cdb buffer dir supported = do
    r ← scsi_sg_io device cdb (length buffer) 0 dir
    pure (r.ret, r.content)
  with_support device cdb buffer dir unsupported = scsi_send_command device cdb buffer dir
  with_support device cdb buffer dir untried = do
    r ← scsi_sg_io device cdb (length buffer) 0 dir
    if r.ret == 0
        then (do set_sg_support supported; pure (r.ret, r.content))
        else do set_sg_support unsupported; scsi_send_command device cdb r.content dir

  -- The result, and what the buffer then holds.
  unfoldable pub scsi_command : Option ℕ → Bytes → Bytes → Direction → Dev W (ℕ × Bytes)
  unfolding with_support
  scsi_command device cdb buffer dir = do
    support ← get_sg_support
    with_support device cdb buffer dir support

  -- The result, and the 36 bytes of the caller's buffer.
  unfoldable pub scsi_inquiry : Option ℕ → Dev W (ℕ × Bytes)
  unfolding scsi_command scsi_fixstring
  scsi_inquiry device = do
    r ← scsi_command device (inquiry ∷ 0 ∷ 0 ∷ 0 ∷ 36 ∷ 0 ∷ []) (k.stack 36) dxfer_from_dev
    if not (r.0 == 0) then pure (1, r.1) else pure (0, take 8 r.1 ++ scsi_fixstring (drop 8 r.1) 24)

  unfoldable pub scsi_modesense : Option ℕ → ℕ → ℕ → Dev W (ℕ × Bytes)
  unfolding scsi_command
  scsi_modesense device pagenum buffer_len = do
    r ←
        scsi_command device (mode_sense ∷ 0 ∷ pagenum ∷ 0 ∷ 0xff ∷ 0 ∷ []) (k.stack buffer_len)
          dxfer_from_dev
    if r.0 == 0
        then (if ltb (get_or r.1 0 0) (get_or r.1 3 0 + 5) then pure (minus_one, r.1) else pure r)
        else pure r

  -- The buffer as `scsi_modeselect` prepares it.
  unfoldable pub select_page : Bytes → Bytes
  select_page buffer =
      0
      ∷ 0
      ∷ 0
      ∷ 0x08
      ∷ 0
      ∷ 0
      ∷ 0
      ∷ 0
      ∷ 0
      ∷ 0
      ∷ 0x02
      ∷ 0
      ∷ bit_and (get_or buffer 12 0) 0x3f
      ∷ drop 13 buffer

  -- `cdb[4]` is an `unsigned char`, and is the length of the data too.
  unfoldable pub scsi_modeselect : Option ℕ → Bytes → Dev W ℕ
  unfolding scsi_command select_page
  scsi_modeselect device buffer = do
    let n = (get_or buffer 0 0 + 1) % 256
    r ←
        scsi_command device (mode_select ∷ 0x11 ∷ 0 ∷ 0 ∷ n ∷ 0 ∷ []) (take n (select_page buffer))
          dxfer_to_dev
    pure r.0

  unfoldable pub scsi_logsense : Option ℕ → ℕ → ℕ → Dev W (ℕ × Bytes)
  unfolding scsi_command
  scsi_logsense device pagenum buffer_len =
      scsi_command device (log_sense ∷ 0 ∷ bit_or 0x40 pagenum ∷ 0 ∷ 0 ∷ 0 ∷ 0 ∷ 0x04 ∷ 0 ∷ 0 ∷ [])
        (k.stack buffer_len) dxfer_from_dev

  -- The bit DEXCPT of the mode page.
  abbrev pub dexcpt : Bytes → Bool
  dexcpt buf = not (bit_and (get_or buf 14 0) 0x08 == 0)

  unfoldable pub scsi_smartsupport : Option ℕ → Dev W Bool
  unfolding scsi_modesense
  scsi_smartsupport device = do
    r ← scsi_modesense device exceptions_control_page 255
    pure (r.0 == 0 && not (dexcpt r.1))

  unfoldable pub scsi_smart_dexcpt_disable : Option ℕ → Dev W ℕ
  unfolding scsi_modesense scsi_modeselect
  scsi_smart_dexcpt_disable device = do
    r ← scsi_modesense device exceptions_control_page 255
    if not (r.0 == 0)
        then pure 1
        else if dexcpt r.1
        then scsi_modeselect device (set (set r.1 14 (bit_and (get_or r.1 14 0) 0xf7)) 15 0x04)
        else pure 0
