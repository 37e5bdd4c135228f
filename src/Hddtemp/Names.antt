-- ===== src/Hddtemp/Names.antt =====
-- The names of drives in the kernel's replies, as strings of C.
use hddtemp.Prelude.{
  ℕ, zero, suc, ◌-◌, ◌%◌, ◌<◌, ◌≤◌, some, Option, [], ◌∷◌, ◌++◌, ◌==◌, ◌≡◌, ◌≢◌, refl, ap, ◌∙◌, ◌⊎◌,
  inl, inr, Bytes, codes, take, drop, get_or, get_elem?, length, replicate, length-take,
  take-append-drop, arith, Bool-cases,
}
use mathlib.Core.Option
use hddtemp.Prelude.Int.{negsuc}
use hddtemp.Device.{
  BusType, error, bus_unknown, bus_sata, bus_ata, bus_scsi, Request, hdio_get_identity,
  hdio_drive_cmd, scsi_get_bus_number, sg_io, scsi_send_command as send_request, Reply, string_at,
}
use hddtemp.FixString.{swap_pairs, scsi_fixstring, sata_fixstring}
use hddtemp.FixString.Spec.{tidy, BlanksInside, tidy-IsTidy}
use hddtemp.FixString.Refine.{scsi_fixstring-tidy, sata_fixstring-tidy}

-- The clean name in the 24 bytes of a reply to INQUIRY, and to IDENTIFY DEVICE behind ATA PASS-THROUGH (16).
abbrev pub inquiry_name : Bytes → Bytes
inquiry_name bytes = tidy (take 24 (drop 8 bytes))

abbrev pub identify_name : Bytes → Bytes
identify_name bytes = tidy (swap_pairs (take 24 (drop 54 bytes)))

-- The name in a reply that succeeds leaves room for a NUL: that of INQUIRY and of IDENTIFY DEVICE in
-- the 24 bytes that the program cleans up, and that of a `struct hd_driveid` in its 40 bytes and the
-- one behind them.
abbrev pub IsNamed : Request → Reply → Type 0
IsNamed (hdio_get_identity fd) r = (i : ℕ) × (i ≤ 40) × (get_elem? (drop 54 r.content) i ≡ some 0)
IsNamed (hdio_drive_cmd fd args) r = Unit {0}
IsNamed (scsi_get_bus_number fd) r = Unit {0}
IsNamed (sg_io fd hdr) r =
    (get_or hdr.cmdp 0 0 ≡ 0x12 → length (inquiry_name r.content) < 24)
    × (get_or hdr.cmdp 14 0 ≡ 0xec → length (identify_name r.content) < 24)
IsNamed (send_request fd block) r =
    get_or block 8 0 ≡ 0x12 → length (inquiry_name (take 36 (drop 8 r.content))) < 24

-- IDENTIFY DEVICE behind ATA PASS-THROUGH (16): a read of one sector.
abbrev pub pass_identify : Option ℕ → Request
pass_identify fd = sg_io fd (record {
  interface_id = b'S';
  cmdp = 0x85 ∷ 8 ∷ 0x2e ∷ 0 ∷ 0 ∷ 0 ∷ 0 ∷ 0 ∷ 0 ∷ 0 ∷ 0 ∷ 0 ∷ 0 ∷ 0 ∷ 0xec ∷ 0 ∷ [];
  dxfer_len = 512;
  mx_sb_len = 32;
  dxfer_direction = negsuc 2;
  timeout = 3000;
})

-- INQUIRY of 36 bytes, by either call, and what the reply brings.
abbrev pub inquire : Bytes
inquire = 0x12 ∷ 0 ∷ 0 ∷ 0 ∷ 36 ∷ 0 ∷ []

abbrev pub IsInquiry : Option ℕ → Request → Type 0
IsInquiry fd (sg_io fd' hdr) = (fd' ≡ fd) × (hdr.cmdp ≡ inquire)
IsInquiry fd (send_request fd' block) = (fd' ≡ fd) × (take 6 (drop 8 block) ≡ inquire)
IsInquiry fd (hdio_get_identity fd') = ⊥
IsInquiry fd (hdio_drive_cmd fd' args) = ⊥
IsInquiry fd (scsi_get_bus_number fd') = ⊥

abbrev pub inquired : Request → Reply → Bytes
inquired (send_request fd block) r = take 36 (drop 8 r.content)
inquired _ r = r.content

-- The model that goes with the request and its reply: the name in it, or "unknown" if it failed.
abbrev pub IsModel : BusType → Option ℕ → Bytes → Request → Reply → Type 0
IsModel error fd m q r = ⊥
IsModel bus_unknown fd m q r = ⊥
IsModel bus_ata fd m q r =
    (q ≡ hdio_get_identity fd)
    × (((r.ret ≡ 0) × (string_at (drop 54 r.content) ≡ some m))
        ⊎ ((r.ret ≢ 0) × (m ≡ codes "unknown")))
IsModel bus_sata fd m q r =
    (q ≡ pass_identify fd)
    × (((r.ret ≡ 0) × (get_or r.sense 0 0 ≡ 0x72) × (m ≡ identify_name r.content))
        ⊎ (((r.ret ≢ 0) ⊎ (get_or r.sense 0 0 ≢ 0x72)) × (m ≡ codes "unknown")))
IsModel bus_scsi fd m q r =
    IsInquiry fd q
    × (((r.ret ≡ 0) × (m ≡ inquiry_name (inquired q r))) ⊎ ((r.ret ≢ 0) × (m ≡ codes "unknown")))

-- A string that ends where a NUL stands, or before.
pub string_at-ends :
    (m : Bytes) (i : ℕ)
    → get_elem? m i ≡ some 0
    → (text : Bytes) × (string_at m ≡ some text) × (length text ≤ i)
unfolding string_at
string_at-ends [] i h = cc
string_at-ends (c ∷ m) zero h = ([], ground arith, omega arith)
string_at-ends (c ∷ m) (suc i) h = elim (Bool-cases (c == 0)) [
  | inl e ↦ ([], rw e refl, omega arith)
  | inr e ↦
      let (text, q, le) = string_at-ends m i h in
      (c ∷ text, rw e (ap (Option.map (◌∷◌ c)) q), omega (arith, le))
]

string_at-BlanksInside : (s rest : Bytes) → BlanksInside s → string_at (s ++ (0 ∷ rest)) ≡ some s
unfolding string_at
string_at-BlanksInside [] rest h = refl
string_at-BlanksInside (c ∷ s) rest h =
    rw (h.0, string_at) (ap (Option.map (◌∷◌ c)) (string_at-BlanksInside s rest h.2))

-- A clean name with the NULs of its field behind it.
string_at-tidy :
    (field rest : Bytes) (n : ℕ)
    → length (tidy field) < n
    → string_at (tidy field ++ (replicate (n - length (tidy field)) 0 ++ rest)) ≡ some (tidy field)
string_at-tidy field rest n lt = go (n - length (tidy field)) (omega (arith, lt))
  where
    go : (m : ℕ) → 0 < m → string_at (tidy field ++ (replicate m 0 ++ rest)) ≡ some (tidy field)
    go zero h = absurd (omega arith)
    go (suc m) h =
        string_at-BlanksInside (tidy field) (replicate m 0 ++ rest) (tidy-IsTidy field).inside

split_field : (bytes : Bytes) → 24 ≤ length bytes → length (take 24 bytes) ≡ 24
split_field bytes h = omega (arith, length-take 24 bytes)

pub string_at-scsi :
    (bytes : Bytes)
    → 24 ≤ length bytes
    → length (tidy (take 24 bytes)) < 24
    → string_at (scsi_fixstring bytes 24) ≡ some (tidy (take 24 bytes))
string_at-scsi bytes h lt =
    let e = split_field bytes h in
    let fixed =
      rw (take-append-drop 24 bytes, e) at (scsi_fixstring-tidy (take 24 bytes) (drop 24 bytes)) in
    ap string_at fixed ∙ string_at-tidy (take 24 bytes) (drop 24 bytes) 24 lt

pub string_at-sata :
    (bytes : Bytes)
    → 24 ≤ length bytes
    → length (tidy (swap_pairs (take 24 bytes))) < 24
    → string_at (sata_fixstring bytes 24) ≡ some (tidy (swap_pairs (take 24 bytes)))
string_at-sata bytes h lt =
    let e = split_field bytes h in
    let even : length (take 24 bytes) % 2 ≡ 0 = omega (arith, e) in
    let fixed =
      rw (take-append-drop 24 bytes, e) at
        (sata_fixstring-tidy (take 24 bytes) (drop 24 bytes) even) in
    ap string_at fixed ∙ string_at-tidy (swap_pairs (take 24 bytes)) (drop 24 bytes) 24 lt
