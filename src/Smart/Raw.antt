-- ===== src/Smart/Raw.antt =====
-- The searches find the lowest raw byte of an attribute in the table as the drive sends it: thirty
-- entries of twelve bytes behind a version word, each with its number first and six raw bytes from
-- its sixth byte on.
use hddtemp.Prelude.{
  ℕ, zero, suc, ◌+◌, ◌*◌, ◌<◌, false, Option, none, some, [], ◌∷◌, ◌++◌, ◌==◌, ◌≡◌, refl, ap,
  if◌then◌else◌, Bytes, get_or, length, arith, Bool-cases, inl, inr, ◌∙◌,
}
use hddtemp.Smart.{
  swapb, swap_words, ata_field, sata_field, search_loop, ata_search_temperature,
  sata_search_temperature,
}

-- Every element is a byte.
abbrev pub IsBytes : Bytes → Type 0
IsBytes [] = Unit {0}
IsBytes (c ∷ m) = (c < 256) × IsBytes m

-- The raw value of the first attribute numbered `id`, among `rounds` entries from offset `at` on.
abbrev pub raw_value : Bytes → ℕ → ℕ → ℕ → Option ℕ
raw_value table id zero at = none
raw_value table id (suc rounds) at =
    let further = raw_value table id rounds (at + 12) in
    if get_or table at 0 == id then some (get_or table (at + 5) 0) else further

-- The byte at an odd offset goes one down, and the byte at an even one goes one up.
get-swap_words :
    (n : ℕ) (m : Bytes) (i : ℕ)
    → IsBytes m
    → i < n
    → length m ≡ 2 * n
    → (get_or (swap_words n m) (2 * i + 1) 0 ≡ get_or m (2 * i) 0)
      × (get_or (swap_words n m) (2 * i) 0 ≡ get_or m (2 * i + 1) 0)
unfolding swap_words
get-swap_words zero m i h lt e = absurd (omega arith)
get-swap_words (suc n) [] i h lt e = absurd (omega arith)
get-swap_words (suc n) (a ∷ []) i h lt e = absurd (omega arith)
get-swap_words (suc n) (a ∷ b ∷ m) zero h lt e = unfold swapb in omega arith
get-swap_words (suc n) (a ∷ b ∷ m) (suc i) h lt e =
    let e₀ : 2 * suc i ≡ suc (suc (2 * i)) = omega arith in
    let e₁ : 2 * suc i + 1 ≡ suc (suc (2 * i + 1)) = omega arith in
    rw (e₁, e₀) (get-swap_words n m i h.1.1 (omega arith) (omega arith))

abbrev Table : Bytes → Type 0
Table m = (length m ≡ 512) × IsBytes m

odd_byte :
    (m : Bytes) (i n : ℕ)
    → Table m
    → n < 512
    → n ≡ 2 * i + 1
    → get_or (swap_words 256 m) n 0 ≡ get_or m (2 * i) 0
odd_byte m i n t lt e = rw e (get-swap_words 256 m i t.1 (omega arith) t.0).0

even_byte :
    (m : Bytes) (i n : ℕ)
    → Table m
    → n < 512
    → n ≡ 2 * i
    → get_or (swap_words 256 m) n 0 ≡ get_or m (2 * i + 1) 0
even_byte m i n t lt e = rw e (get-swap_words 256 m i t.1 (omega arith) t.0).1

-- What the callers read at the field that was found: `*(field+3)`.
abbrev pub field_value : Bytes → Option ℕ → Option ℕ
field_value m none = none
field_value m (some n) = some (get_or m (n + 3) 0)

search_loop-raw_value :
    (line : ℕ → ℕ → Bytes) (table : Bytes) (id rounds i : ℕ) (out : Bytes)
    → Table table
    → i + rounds ≡ 30
    → field_value
        (swap_words 256 table)
        (search_loop line false (swap_words 256 table) id rounds (12 * i + 3) out).0
      ≡ raw_value table id rounds (12 * i + 2)
unfolding search_loop
search_loop-raw_value line table id zero i out t e = refl
search_loop-raw_value line table id (suc rounds) i out t e =
    let k : get_or (swap_words 256 table) (12 * i + 3) 0 ≡ get_or table (12 * i + 2) 0 =
      odd_byte table (6 * i + 1) (12 * i + 3) t (omega arith) (omega arith)
      ∙ ap (λ n. get_or table n 0) (omega arith) in
    let v : get_or (swap_words 256 table) (12 * i + 3 + 3) 0 ≡ get_or table (12 * i + 2 + 5) 0 =
      even_byte table (6 * i + 3) (12 * i + 3 + 3) t (omega arith) (omega arith)
      ∙ ap (λ n. get_or table n 0) (omega arith) in
    rw (k, search_loop)
      (elim (Bool-cases (get_or table (12 * i + 2) 0 == id)) [
        | inl q ↦ rw q (ap some v)
        | inr q ↦
            let e₃ : 12 * i + 3 + 12 ≡ 12 * (i + 1) + 3 = omega arith in
            let e₂ : 12 * i + 2 + 12 ≡ 12 * (i + 1) + 2 = omega arith in
            rw q (
              rw (e₃, e₂)
                (search_loop-raw_value line table id rounds (i + 1) (out ++ []) t (omega arith)))
      ])

-- Outside debug mode both searches, in the table with every pair of bytes exchanged, find the lowest
-- raw byte of the first of the thirty attributes with the number asked for, and find nothing if
-- there is none.
pub search_temperature-raw_value :
    (table : Bytes) (id : ℕ)
    → length table ≡ 512
    → IsBytes table
    → (field_value (swap_words 256 table) (ata_search_temperature false (swap_words 256 table) id).0
        ≡ raw_value table id 30 2)
      × (field_value
            (swap_words 256 table)
            (sata_search_temperature false (swap_words 256 table) id).0
          ≡ raw_value table id 30 2)
unfolding ata_search_temperature sata_search_temperature
search_temperature-raw_value table id e h = (
  search_loop-raw_value ata_field table id 30 0 [] (e, h) refl,
  search_loop-raw_value sata_field table id 30 0 [] (e, h) refl,
)
