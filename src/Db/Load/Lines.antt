-- ===== src/Db/Load/Lines.antt =====
-- Lines in a run of bytes, and what `find_newline` makes of them.
use hddtemp.Prelude.{
  ℕ, ◌≤◌, false, Option, none, some, List, [], ◌∷◌, ◌++◌, ◌≡◌, refl, ◌==◌, Bytes, Bool-cases, inl,
  inr, arith, length, ap,
}
use hddtemp.Db.Load.{push_byte, find_newline}

abbrev pub HasNoNewline : Bytes → Type 0
HasNoNewline [] = Unit {0}
HasNoNewline (c ∷ l) = ((c == b'\n') ≡ false) × HasNoNewline l

-- Every line, with a newline behind each.
abbrev pub unlines : List Bytes → Bytes
unlines [] = []
unlines (l ∷ ls) = l ++ (b'\n' ∷ unlines ls)

push_byte-inv :
    (c : ℕ) (o : Option (Bytes × Bytes)) {a b : Bytes}
    → push_byte c o ≡ some (a, b)
    → (a' : Bytes) × (o ≡ some (a', b)) × (a ≡ c ∷ a')
unfolding push_byte
push_byte-inv c none h = cc
push_byte-inv c (some (l, r)) h = (l, cc, cc)

push_byte-none : (c : ℕ) (o : Option (Bytes × Bytes)) → push_byte c o ≡ none → o ≡ none
unfolding push_byte
push_byte-none c none h = refl
push_byte-none c (some (l, r)) h = cc

-- The first line of a run of bytes.
pub find_newline-line :
    (l r : Bytes) → HasNoNewline l → find_newline (l ++ (b'\n' ∷ r)) ≡ some (l, r)
unfolding find_newline
find_newline-line [] r h = refl
find_newline-line (c ∷ l) r h = rw (h.0, find_newline) (rw (find_newline-line l r h.1))

-- What is appended stands behind the newline that is found.
pub find_newline-append :
    (u v : Bytes) {a b : Bytes}
    → find_newline u ≡ some (a, b)
    → find_newline (u ++ v) ≡ some (a, b ++ v)
unfolding find_newline
find_newline-append [] v h = cc
find_newline-append (c ∷ u) v h = elim (Bool-cases (c == b'\n')) [
  | inl e ↦ ground (arith, e, h)
  | inr e ↦
      let (a', q, s) = push_byte-inv c (find_newline u) (rw (e, find_newline) at h) in
      rw (e, find_newline) (rw (find_newline-append u v q, s))
]

pub find_newline-split :
    (u : Bytes) {a b : Bytes} → find_newline u ≡ some (a, b) → u ≡ a ++ (b'\n' ∷ b)
unfolding find_newline
find_newline-split [] h = cc
find_newline-split (c ∷ u) h = elim (Bool-cases (c == b'\n')) [
  | inl e ↦ ground (arith, e, h)
  | inr e ↦
      let (a', q, s) = push_byte-inv c (find_newline u) (rw (e, find_newline) at h) in
      rw s (ap (◌∷◌ c) (find_newline-split u q))
]

-- A run of bytes with no newline is no longer than the first line that it begins.
pub length-le-line :
    (u v l r : Bytes) → find_newline u ≡ none → u ++ v ≡ l ++ (b'\n' ∷ r) → length u ≤ length l
unfolding find_newline
length-le-line [] v l r h e = omega arith
length-le-line (c ∷ u) v [] r h e = ground (arith, h, e)
length-le-line (c ∷ u) v (d ∷ l) r h e = elim (Bool-cases (c == b'\n')) [
  | inl q ↦ cc (rw (q, find_newline) at h)
  | inr q ↦
      let t : u ++ v ≡ l ++ (b'\n' ∷ r) = cc in
      omega (
        arith,
        length-le-line u v l r (push_byte-none c (find_newline u) (rw (q, find_newline) at h)) t,
      )
]
