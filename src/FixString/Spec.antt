-- ===== src/FixString/Spec.antt =====
-- What the names should be: no blank at either end, and none beside another.
use hddtemp.Prelude.{
  ℕ, Bool, true, false, not, ◌&&◌, ◌||◌, List, [], ◌∷◌, ◌++◌, ◌≡◌, refl, ◌∙◌, ◌==◌, if◌then◌else◌,
  Bytes, arith, ◌⊎◌, replicate, zero, suc, inl, inr,
}

-- A byte that goes on with the name: neither its end nor a blank.
abbrev pub is_solid : ℕ → Bool
is_solid c = not (c == 0) && not (c == b' ')

abbrev pub starts_solid : Bytes → Bool
starts_solid [] = false
starts_solid (c ∷ s) = is_solid c

unfoldable pub drop_blanks : Bytes → Bytes
drop_blanks [] = []
drop_blanks (c ∷ s) = if c == b' ' then drop_blanks s else c ∷ s

-- Up to the first NUL, a blank is kept if a solid byte follows it.
unfoldable pub compact : Bytes → Bytes
compact [] = []
compact (c ∷ s) =
    if c == 0 then [] else if not (c == b' ') || starts_solid s then c ∷ compact s else compact s

-- The clean name of a field of bytes.
unfoldable pub tidy : Bytes → Bytes
unfolding drop_blanks compact
tidy s = compact (drop_blanks s)

-- No NUL, and a solid byte behind every blank.
abbrev pub BlanksInside : Bytes → Type 0
BlanksInside [] = Unit {0}
BlanksInside (c ∷ s) =
    ((c == 0) ≡ false) × (((c == b' ') ≡ false) ⊎ (starts_solid s ≡ true)) × BlanksInside s

-- A name with no blank at either end, none beside another, and no NUL.
pub record IsTidy (s : Bytes) : Type 0 where
  pub inside : BlanksInside s
  pub first : (s ≡ []) ⊎ (starts_solid s ≡ true)

-- A byte in front of the first word.
abbrev pub onto_first : ℕ → List Bytes → List Bytes
onto_first c [] = (c ∷ []) ∷ []
onto_first c (w ∷ ws) = (c ∷ w) ∷ ws

-- The words of a field, up to its first NUL: the longest runs of bytes other than blanks, in their order.
abbrev pub words : Bytes → List Bytes
words [] = []
words (c ∷ s) =
    if c == 0
    then []
    else if c == b' '
    then words s
    else (if starts_solid s then onto_first c (words s) else (c ∷ []) ∷ words s)

starts_solid-compact : (s : Bytes) → starts_solid (compact s) ≡ starts_solid s
unfolding compact
starts_solid-compact [] = refl
starts_solid-compact (c ∷ s) = ground (arith, starts_solid-compact s)

BlanksInside-compact : (s : Bytes) → BlanksInside (compact s)
unfolding compact
BlanksInside-compact [] = tt
BlanksInside-compact (c ∷ s) = ground (arith, BlanksInside-compact s, starts_solid-compact s)

compact_first :
    (s : Bytes)
    → (drop_blanks s ≡ []) ⊎ (starts_solid (drop_blanks s) ≡ true) ⊎ (compact (drop_blanks s) ≡ [])
unfolding compact drop_blanks
compact_first [] = inl refl
compact_first (c ∷ s) = ground (arith, compact_first s)

words-compact : (s : Bytes) → words (compact s) ≡ words s
unfolding compact
words-compact [] = refl
words-compact (c ∷ s) = ground (arith, words-compact s, starts_solid-compact s)

words-drop_blanks : (s : Bytes) → words (drop_blanks s) ≡ words s
unfolding drop_blanks
words-drop_blanks [] = refl
words-drop_blanks (c ∷ s) = ground (arith, words-drop_blanks s)

-- The clean name is tidy,
pub tidy-IsTidy : (s : Bytes) → IsTidy (tidy s)
unfolding tidy
tidy-IsTidy s = record {
  inside = BlanksInside-compact (drop_blanks s);
  first = elim (compact_first s) [
    | inl e ↦ inl (rw e (unfold compact in refl))
    | inr (inl e) ↦ inr (starts_solid-compact (drop_blanks s) ∙ e)
    | inr (inr e) ↦ inl e
  ];
}

-- and has the words of the field, in their order.
pub words-tidy : (s : Bytes) → words (tidy s) ≡ words s
unfolding tidy
words-tidy s = simp (words-compact, words-drop_blanks)

compact-BlanksInside : (s : Bytes) (n : ℕ) → BlanksInside s → compact (s ++ replicate n 0) ≡ s
unfolding compact
compact-BlanksInside [] zero h = refl
compact-BlanksInside [] (suc n) h = refl
compact-BlanksInside (c ∷ []) zero h = ground arith
compact-BlanksInside (c ∷ []) (suc n) h = ground arith
compact-BlanksInside (c ∷ d ∷ s) n h = ground (arith, compact-BlanksInside (d ∷ s) n h.2)

drop_blanks_solid : (c : ℕ) (s : Bytes) → is_solid c ≡ true → drop_blanks (c ∷ s) ≡ c ∷ s
unfolding drop_blanks
drop_blanks_solid c s h = ground arith

-- A tidy name in a field of NULs is left as it is.
pub tidy-replicate : (s : Bytes) (n : ℕ) → IsTidy s → tidy (s ++ replicate n 0) ≡ s
unfolding tidy
tidy-replicate [] zero h = unfold drop_blanks compact in refl
tidy-replicate [] (suc n) h = unfold drop_blanks compact in refl
tidy-replicate (c ∷ s) n h = elim h.first [
  | inl e ↦ cc e
  | inr e ↦
      rw (drop_blanks_solid c (s ++ replicate n 0) e) (compact-BlanksInside (c ∷ s) n h.inside)
]
