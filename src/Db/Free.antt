-- ===== src/Db/Free.antt =====
-- `free_database` of src/db.c, on the blocks of memory.
use hddtemp.Prelude.{
  ℕ, ◌+◌, ◌≤◌, ◌<◌, Bool, true, false, Option, none, some, List, [], ◌∷◌, ◌≡◌, refl, ap, ◌==◌,
  if◌then◌else◌, ltb, arith, lt→ltb, Bool-cases, inl, inr,
}

-- A `struct harddrive_entry` in memory: its address, and its two pointers, of which `none` is NULL.
pub record Node : Type 0 where
  pub addr : ℕ
  pub regexp : Option ℕ
  pub description : Option ℕ

-- The addresses of the blocks that are not freed.
abbrev pub Heap : Type 0
Heap = List ℕ

-- `free`; `none`: the block is not there.
unfoldable pub release : ℕ → Heap → Option Heap
release a [] = none
release a (b ∷ heap) =
    let rest = release a heap in
    if a == b then some heap else elim rest [ none ↦ none | some heap' ↦ some (b ∷ heap') ]

abbrev pub one_if : Bool → ℕ
one_if true = 1
one_if false = 0

abbrev pub count : ℕ → Heap → ℕ
count a [] = 0
count a (b ∷ heap) = one_if (a == b) + count a heap

unfoldable pub free_block : ℕ → Option Heap → Option Heap
unfolding release
free_block a none = none
free_block a (some heap) = release a heap

-- `if(pointer) free(pointer);`
unfoldable pub free_field : Option ℕ → Option Heap → Option Heap
unfolding free_block
free_field none heap = heap
free_field (some a) heap = free_block a heap

-- A read of the entry at the address.
unfoldable pub read_entry : ℕ → Option Heap → Option Heap
read_entry a none = none
read_entry a (some heap) = if ltb 0 (count a heap) then some heap else none

-- `none`: a block is read or freed that is not there.
unfoldable pub free_database : List Node → Option Heap → Option Heap
unfolding free_field read_entry
free_database [] heap = heap
free_database (p ∷ supported_drives) heap = free_database supported_drives (
    free_block p.addr (
      read_entry p.addr (
        free_field p.description
          (read_entry p.addr (free_field p.regexp (read_entry p.addr heap))))))

-- The same blocks, in whatever order.
abbrev pub SameBlocks : Heap → Heap → Type 0
SameBlocks heap l = (b : ℕ) → count b heap ≡ count b l

-- The heap is there, with these blocks.
abbrev pub Has : Option Heap → Heap → Type 0
Has o l = (heap : Heap) × ((o ≡ some heap) × SameBlocks heap l)

abbrev field_onto : Option ℕ → Heap → Heap
field_onto none l = l
field_onto (some a) l = a ∷ l

-- The blocks of the entries, and others.
abbrev pub blocks_onto : List Node → Heap → Heap
blocks_onto [] others = others
blocks_onto (p ∷ ps) others =
    field_onto p.regexp (field_onto p.description (p.addr ∷ blocks_onto ps others))

release-other :
    (a c : ℕ) (heap rest : Heap)
    → (a == c) ≡ false
    → release a heap ≡ some rest
    → release a (c ∷ heap) ≡ some (c ∷ rest)
unfolding release
release-other a c heap rest e q = rw (e, q) refl

count-other : (a c : ℕ) (heap : Heap) → (a == c) ≡ false → 0 < count a (c ∷ heap) → 0 < count a heap
count-other a c heap e h = omega (arith, h, ap one_if e)

release-count :
    (a : ℕ) (heap : Heap)
    → 0 < count a heap
    → (rest : Heap) × ((release a heap ≡ some rest)
        × ((b : ℕ) → one_if (b == a) + count b rest ≡ count b heap))
unfolding release
release-count a [] h = absurd (omega arith)
release-count a (c ∷ heap) h = elim (Bool-cases (a == c)) [
  | inl e ↦ (heap, (rw e refl, λ b. ground arith))
  | inr e ↦
      let (rest, (q, same)) = release-count a heap (count-other a c heap e h) in
      (c ∷ rest, (release-other a c heap rest e q, λ b. omega (arith, same b)))
]

count-here : (a : ℕ) (l : Heap) → count a (a ∷ l) ≡ 1 + count a l
count-here a l = ground arith

free_block-Has : (a : ℕ) (o : Option Heap) (l : Heap) → Has o (a ∷ l) → Has (free_block a o) l
unfolding free_block
free_block-Has a o l (heap, (e, same)) =
    let (rest, (q, counts)) = release-count a heap (omega (arith, same a, count-here a l)) in
    (rest, (rw (e, q) refl, λ b. omega (arith, counts b, same b)))

free_field-Has :
    (r : Option ℕ) (o : Option Heap) (l : Heap) → Has o (field_onto r l) → Has (free_field r o) l
unfolding free_field
free_field-Has none o l h = h
free_field-Has (some a) o l h = free_block-Has a o l h

read_entry-Has :
    (a : ℕ) (o : Option Heap) (l : Heap) → 0 < count a l → Has o l → Has (read_entry a o) l
unfolding read_entry
read_entry-Has a o l p (heap, (e, same)) =
    (heap, (rw (e, lt→ltb 0 (count a heap) (omega (arith, same a, p))) refl, same))

count-field_onto : (a : ℕ) (r : Option ℕ) (l : Heap) → count a l ≤ count a (field_onto r l)
count-field_onto a none l = omega arith
count-field_onto a (some b) l = omega arith

-- When the heap holds the blocks of the entries, their nodes, patterns and descriptions, each as often as it is
-- pointed to, and others besides, `free_database` reads and frees only blocks that are there, and
-- leaves exactly the others.
pub free_database-Has :
    (supported_drives : List Node) (o : Option Heap) (others : Heap)
    → Has o (blocks_onto supported_drives others)
    → Has (free_database supported_drives o) others
unfolding free_database
free_database-Has [] o others h = h
free_database-Has (p ∷ ps) o others h =
    let l : Heap = p.addr ∷ blocks_onto ps others in
    let here : 0 < count p.addr l = omega (arith, count-here p.addr (blocks_onto ps others)) in
    let more : count p.addr l ≤ count p.addr (field_onto p.description l) =
      count-field_onto p.addr p.description l in
    let all : count p.addr (field_onto p.description l)
        ≤ count p.addr (field_onto p.regexp (field_onto p.description l)) =
      count-field_onto p.addr p.regexp (field_onto p.description l) in
    free_database-Has ps _ others (
      free_block-Has p.addr _ _ (
        read_entry-Has p.addr _ l here (
          free_field-Has p.description _ l (
            read_entry-Has p.addr _ (field_onto p.description l) (omega (arith, here, more)) (
              free_field-Has p.regexp _ (field_onto p.description l)
                (read_entry-Has p.addr o _ (omega (arith, here, more, all)) h))))))
