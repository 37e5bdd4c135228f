-- ===== src/Smart.antt =====
-- The S.M.A.R.T. attribute table: the byte exchange in src/ata.c and src/sata.c, and the two searches,
-- `ata_search_temperature` of src/atacmds.c and `sata_search_temperature` of src/sata.c.
pub mod Raw
pub mod Small
use hddtemp.Prelude.{
  ℕ, zero, suc, ◌+◌, ◌-◌, ◌*◌, ◌/◌, ◌%◌, Bool, true, false, not, ◌&&◌, ◌||◌, Option, none, some, [],
  ◌∷◌, ◌++◌, ◌==◌, if◌then◌else◌, ltb, Bytes, codes, get_or,
}
use hddtemp.Printf.{show_nat}

-- `swapb(x)`: ((x & 0x00ff) << 8) | ((x & 0xff00) >> 8), for a `u16`.
unfoldable pub swapb : ℕ → ℕ
swapb x = x % 256 * 256 + x / 256 % 256

-- `for(i = 0; i < n; i++) swapb(*(p+i));` on words with the low byte first.
unfoldable pub swap_words : ℕ → Bytes → Bytes
unfolding swapb
swap_words zero m = m
swap_words (suc n) [] = []
swap_words (suc n) (a ∷ []) = a ∷ []
swap_words (suc n) (a ∷ b ∷ m) = let x = swapb (a + 256 * b) in x % 256 ∷ x / 256 ∷ swap_words n m

abbrev hex_digit : ℕ → ℕ
hex_digit d = if ltb d 10 then b'0' + d else b'a' + (d - 10)

-- The line that a search in debug mode prints for a field: its number and its value.
unfoldable pub ata_field : ℕ → ℕ → Bytes
ata_field id v =
    codes "field("
    ++ (show_nat id
        ++ (codes ")\t = "
            ++ (show_nat v
                ++ (codes "\t(0x" ++ (hex_digit (v / 16) ∷ hex_digit (v % 16) ∷ codes ")\n")))))

unfoldable pub sata_field : ℕ → ℕ → Bytes
sata_field id v = codes "field(" ++ (show_nat id ++ (codes ")\t = " ++ (show_nat v ++ codes "\n")))

-- The loop, with `rounds` = 30 - i: the field's offset, if it is found, and what has been printed.
unfoldable pub search_loop : (ℕ → ℕ → Bytes) → Bool → Bytes → ℕ → ℕ → ℕ → Bytes → Option ℕ × Bytes
search_loop line debug smart_data attribute_id zero n out = (none, out)
search_loop line debug smart_data attribute_id (suc rounds) n out =
    let id = get_or smart_data n 0 in
    let text = if debug && not (id == 0) then line id (get_or smart_data (n + 3) 0) else [] in
    let further = search_loop line debug smart_data attribute_id rounds (n + 12) (out ++ text) in
    if debug || not (id == attribute_id) then further else (some n, out)

unfoldable pub ata_search_temperature : Bool → Bytes → ℕ → Option ℕ × Bytes
unfolding search_loop ata_field
ata_search_temperature debug smart_data attribute_id =
    search_loop ata_field debug smart_data attribute_id 30 3 []

unfoldable pub sata_search_temperature : Bool → Bytes → ℕ → Option ℕ × Bytes
unfolding search_loop sata_field
sata_search_temperature debug smart_data attribute_id =
    search_loop sata_field debug smart_data attribute_id 30 3 []
