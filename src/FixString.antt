-- ===== src/FixString.antt =====
-- `scsi_fixstring` of src/scsicmds.c and `sata_fixstring` of src/satacmds.c: the loops that clean a
-- drive's name in place, by two pointers into one buffer.
pub mod Spec
pub mod Compress
pub mod Refine
use hddtemp.Prelude.{
  ℕ, zero, suc, ◌+◌, ◌-◌, ◌%◌, Bool, true, false, not, ◌&&◌, ◌||◌, [], ◌∷◌, ◌++◌, ◌==◌,
  if◌then◌else◌, Bytes, length, get_or, set, take, drop,
}

-- The buffer, and the pointers `s` and `p` as offsets from its start.
pub record Cursors : Type 0 where
  pub buf : Bytes
  pub s : ℕ
  pub p : ℕ

-- `*s` at an offset inside the buffer.
abbrev pub byte : Bytes → ℕ → ℕ
byte buf i = get_or buf i 0

-- `while (s != end && *s == ' ') ++s;`. A pointer that starts at most at `end` is stopped there, so
-- that `end - s` rounds are enough.
unfoldable pub skip_leading : ℕ → ℕ → Bytes → ℕ → ℕ
skip_leading zero end buf s = s
skip_leading (suc rounds) end buf s =
    let further = skip_leading rounds end buf (s + 1) in
    if not (s == end) && byte buf s == b' ' then further else s

-- One round of the loop that compresses: `c` is `*s++`, and `s` stands behind it.
unfoldable pub compress_step : ℕ → Cursors → Cursors
compress_step end cur =
    let c = byte cur.buf cur.s in
    let s = cur.s + 1 in
    if not (c == b' ')
      || (not (s == end) && (not (byte cur.buf s == 0) && not (byte cur.buf s == b' ')))
    then record { buf = set cur.buf cur.p (byte cur.buf (s - 1)); s = s; p = cur.p + 1 }
    else record cur { s = s }

-- `while (s != end && *s) …`
unfoldable pub compress : ℕ → ℕ → Cursors → Cursors
compress zero end cur = cur
compress (suc rounds) end cur =
    let further = compress rounds end (compress_step end cur) in
    if not (cur.s == end) && not (byte cur.buf cur.s == 0) then further else cur

-- `while (p != end) *p++ = '\0';`
unfoldable pub wipe : ℕ → ℕ → Bytes → ℕ → Bytes
wipe zero end buf p = buf
wipe (suc rounds) end buf p =
    let further = wipe rounds end (set buf p 0) (p + 1) in if not (p == end) then further else buf

-- The three loops on the first `end` bytes.
clean : ℕ → Bytes → Bytes
unfolding skip_leading compress compress_step wipe
clean end buf =
    let s = skip_leading end end buf 0 in
    let cur = compress (end - s) end (record { buf = buf; s = s; p = 0 }) in
    wipe (end - cur.p) end cur.buf cur.p

unfoldable pub scsi_fixstring : Bytes → ℕ → Bytes
unfolding clean
scsi_fixstring s bytecount = clean bytecount s

-- `*pp = ntohs(*pp)` on every pair of bytes, on a host with little-endian words.
unfoldable pub swap_pairs : Bytes → Bytes
swap_pairs [] = []
swap_pairs (a ∷ []) = a ∷ []
swap_pairs (a ∷ b ∷ m) = b ∷ a ∷ swap_pairs m

unfoldable pub sata_fixstring : Bytes → ℕ → Bytes
unfolding clean swap_pairs
sata_fixstring s bytecount =
    let end = bytecount - bytecount % 2 in clean end (swap_pairs (take end s) ++ drop end s)
