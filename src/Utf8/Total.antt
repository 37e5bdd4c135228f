-- ===== src/Utf8/Total.antt =====
-- The conversion ends, with the whole text or with the fallback.
use mathlib.Core.Option
use hddtemp.Prelude.{
  ℕ, zero, suc, ◌+◌, ◌-◌, ◌≤◌, ◌<◌, Bool, true, false, Option, none, some, [], ◌∷◌, ◌++◌, ◌≡◌, refl,
  ap, ltb, Bytes, length, take, arith, length-append, append_assoc, append-nil,
}
use hddtemp.Utf8.{
  IconvError, no_error, e2big, other_error, IconvReply, Dest, Converted, block, buffer_inc, strdup,
  shrink, grow, advance, convert_loop, after_iconv, iconv_from_utf8_to_locale,
}

-- What a call of `iconv` with so much room promises; `whole` is the conversion of a whole text from a
-- state of the descriptor, `none` where it is not valid.
abbrev pub Promises :
    {C : Type 0}
    → (C → Bytes → Option Bytes)
    → Option Bytes
    → ℕ
    → ℕ
    → IconvReply C
    → IconvError
    → Type 0
Promises whole goal room size r no_error = (r.rest ≡ []) × (goal ≡ some r.out)
Promises whole goal room size r other_error = goal ≡ none
Promises whole goal room size r e2big =
    (goal ≡ Option.map (◌++◌ r.out) (whole r.cd r.rest))
    × (buffer_inc ≤ room → length r.rest < size)

-- `iconv` as it is documented: it writes no more than it has room for, and either converts all of the
-- source, or stops at an invalid text, or with `E2BIG` at a character that has no room; no character
-- needs 80 bytes. Nothing is left of an empty source.
pub record IsConverter {C : Type 0} (iconv : C → Bytes → ℕ → IconvReply C)
    (whole : C → Bytes → Option Bytes) : Type 0 where
  pub fits : (cd : C) (src : Bytes) (room : ℕ) → length (iconv cd src room).out ≤ room
  pub converts :
      (cd : C) (src : Bytes) (room : ℕ)
      → Promises whole
          (whole cd src)
          room
          (length src)
          (iconv cd src room)
          (iconv cd src room).error
  pub empty : (cd : C) → whole cd [] ≡ some []

-- A block that begins with the text, or a copy of the fallback.
abbrev pub Holds : Bytes → Option Bytes → Converted → Type 0
Holds fallback (some out) c = (junk : Bytes) × (c ≡ block (out ++ junk))
Holds fallback none c = c ≡ block (fallback ++ 0 ∷ [])

-- The room that `iconv` is told lies in the buffer, and is 80 bytes whenever it begins with it.
pub record IsRoom (d : Dest) : Type 0 where
  pub inside : length d.written + d.left ≤ d.size
  pub wide : buffer_inc ≤ d.left

module _ {C : Type 0} (iconv : C → Bytes → ℕ → IconvReply C) (alloc : ℕ → Bool)
    (garbage : ℕ → Bytes) (whole : C → Bytes → Option Bytes) (r : IsConverter iconv whole)
    (memory : (n : ℕ) → alloc n ≡ true) (fallback : Bytes) where
  take-prefix :
      (n : ℕ) (a b : Bytes) → length a ≤ n → (junk : Bytes) × (take n (a ++ b) ≡ a ++ junk)
  take-prefix n [] b h = (take n b, refl)
  take-prefix zero (x ∷ a) b h = absurd (omega arith)
  take-prefix (suc n) (x ∷ a) b h =
      let (j, e) = take-prefix n a b (omega arith) in (j, ap (◌∷◌ x) e)

  shrink-Holds :
      (d : Dest)
      → length d.written + d.left ≤ d.size
      → Holds fallback (some d.written) (shrink iconv alloc garbage d)
  unfolding shrink
  shrink-Holds d h =
      let (junk, e) =
        take-prefix (d.size - d.left) d.written (garbage (d.size - length d.written))
          (omega arith) in
      (junk, rw (memory (d.size - d.left)) (ap block e))

  strdup-Holds : Holds fallback none (strdup iconv alloc garbage fallback)
  unfolding strdup
  strdup-Holds = rw (memory (length fallback + 1)) refl

  abbrev onto : Bytes → Option Bytes → Option Bytes
  onto a = Option.map (◌++◌ a)

  onto-onto : (a b : Bytes) (o : Option Bytes) → onto (a ++ b) o ≡ onto a (onto b o)
  onto-onto a b none = refl
  onto-onto a b (some c) = ap some (append_assoc a b c)

  -- The rest of the loop: from a buffer with room on any source that is shorter, and at its end.
  record Goes (size : ℕ) (next : C → Bytes → Dest → Converted) : Type 0 where
    on :
        (cd : C) (src : Bytes) (d : Dest)
        → IsRoom d
        → length src < size
        → Holds fallback (onto d.written (whole cd src)) (next cd src d)
    ends : (cd : C) (d : Dest) → next cd [] d ≡ shrink iconv alloc garbage d

  after_iconv-Holds :
      (q : IconvReply C) (e : IconvError) (d : Dest) (next : C → Bytes → Dest → Converted)
      (goal : Option Bytes) (size : ℕ)
      → q.error ≡ e
      → length q.out ≤ d.left
      → IsRoom d
      → Promises whole goal d.left size q e
      → Goes size next
      → Holds fallback (onto d.written goal) (after_iconv iconv alloc garbage fallback q d next)
  unfolding after_iconv
  after_iconv-Holds q no_error d next goal size s fit room (p0, p1) go =
      let inside : ltb d.size (length d.written + length q.out) ≡ false =
        ground (arith, room.inside) in
      let ended : next q.cd q.rest (advance iconv alloc garbage d q.out)
          ≡ shrink iconv alloc garbage (advance iconv alloc garbage d q.out) =
        rw p0 (go.ends q.cd (advance iconv alloc garbage d q.out)) in
      rw (p1, inside, s, ended, after_iconv)
        (unfold advance in
          shrink-Holds (advance iconv alloc garbage d q.out)
            (omega (arith, length-append d.written q.out, room.inside)))
  after_iconv-Holds q other_error d next goal size s fit room p go =
      let inside : ltb d.size (length d.written + length q.out) ≡ false =
        ground (arith, room.inside) in
      rw (p, inside, s, after_iconv) strdup-Holds
  after_iconv-Holds q e2big d next goal size s fit room (p0, p1) go =
      let inside : ltb d.size (length d.written + length q.out) ≡ false =
        ground (arith, room.inside) in
      rw
        (
          p0,
          inside,
          s,
          memory (d.size + buffer_inc),
          after_iconv,
          ← onto-onto d.written q.out (whole q.cd q.rest),
        )
        (unfold advance grow in
          go.on q.cd q.rest (grow iconv alloc garbage (advance iconv alloc garbage d q.out))
            (record {
              inside = omega (arith, length-append d.written q.out, room.inside);
              wide = omega arith;
            })
            (p1 room.wide))

  convert_loop-Holds :
      (fuel : ℕ) (cd : C) (src : Bytes) (d : Dest)
      → IsRoom d
      → length src ≤ fuel
      → Holds fallback
          (onto d.written (whole cd src))
          (convert_loop iconv alloc garbage fuel fallback cd src d)
  unfolding convert_loop
  convert_loop-Holds fuel cd [] d room lt = rw (r.empty cd, append-nil) (shrink-Holds d room.inside)
  convert_loop-Holds zero cd (c ∷ src) d room lt = absurd (omega arith)
  convert_loop-Holds (suc fuel) cd (c ∷ src) d room lt =
      after_iconv-Holds (iconv cd (c ∷ src) d.left) (iconv cd (c ∷ src) d.left).error d
        (λ cd' src' d'. convert_loop iconv alloc garbage fuel fallback cd' src' d')
        (whole cd (c ∷ src)) (length (c ∷ src)) refl (r.fits cd (c ∷ src) d.left) room
        (r.converts cd (c ∷ src) d.left)
        (record {
          on = λ cd' src' d' room' lt'.
              convert_loop-Holds fuel cd' src' d' room' (omega (arith, lt, lt'));
          ends = λ cd' d'. refl;
        })

  onto-nil : (o : Option Bytes) → onto [] o ≡ o
  onto-nil none = refl
  onto-nil (some a) = refl

  -- With a documented `iconv` and memory, as many rounds as the text has bytes, and one for its NUL, are
  -- enough for `iconv_from_utf8_to_locale`. No call of `iconv` writes behind the buffer, and the caller
  -- gets a block that begins with the conversion of the text and its NUL, or a copy of the fallback
  -- if the text cannot be converted.
  pub iconv_from_utf8_to_locale-Holds :
      (fuel : ℕ) (cd : C) (text : Bytes)
      → length text < fuel
      → Holds fallback
          (whole cd (text ++ 0 ∷ []))
          (iconv_from_utf8_to_locale iconv alloc garbage fuel (some cd) text fallback)
  unfolding iconv_from_utf8_to_locale
  iconv_from_utf8_to_locale-Holds fuel cd text lt =
      rw
        (
          memory buffer_inc,
          memory (length text + 1),
          iconv_from_utf8_to_locale,
          ← onto-nil (whole cd (text ++ 0 ∷ [])),
        )
        (convert_loop-Holds fuel cd (text ++ 0 ∷ [])
          (record { written = []; size = buffer_inc; left = buffer_inc })
          (record { inside = omega arith; wide = omega arith })
          (omega (arith, length-append text (0 ∷ []), lt)))
