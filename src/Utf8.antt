-- ===== src/Utf8.antt =====
-- src/utf8.c: the degree sign in the charset of the locale. `iconv` is a parameter.
pub mod Total
use hddtemp.Prelude.{
  ℕ, zero, suc, ◌+◌, ◌-◌, Bool, true, false, Option, none, some, [], ◌∷◌, ◌++◌, ltb, if◌then◌else◌,
  Bytes, length, take, ◌&&◌,
}

-- How a call of `iconv` ends: with a result other than -1, or with `E2BIG` or another error.
pub data IconvError : Type 0 where
  no_error e2big other_error : IconvError

-- What a call of `iconv` leaves: the descriptor's state, the bytes that it has written, and those of
-- the source that are left.
pub record IconvReply (C : Type 0) : Type 0 where
  pub cd : C
  pub out : Bytes
  pub rest : Bytes
  pub error : IconvError

-- The destination buffer: the bytes before `dest_buffer_ptr`, `dest_buffer_size` and
-- `dest_buffer_size_left`.
pub record Dest : Type 0 where
  pub written : Bytes
  pub size : ℕ
  pub left : ℕ

-- What the caller gets.
pub data Converted : Type 0 where
  -- a block of memory with these bytes
  block : Bytes → Converted
  -- NULL
  null : Converted
  -- a write behind the buffer, or through NULL
  overrun : Converted
  -- the model's fuel is used up
  out_of_fuel : Converted

-- `buffer_inc`
abbrev pub buffer_inc : ℕ
buffer_inc = 80

module _ {C : Type 0} (iconv : C → Bytes → ℕ → IconvReply C)
    -- whether `malloc`, `realloc` and `strdup` give a block of so many bytes
    (alloc : ℕ → Bool)
    -- what the bytes of a block hold before they are written
    (garbage : ℕ → Bytes) where
  unfoldable pub strdup : Bytes → Converted
  strdup text = if alloc (length text + 1) then block (text ++ 0 ∷ []) else null

  -- `realloc(dest_buffer, dest_buffer_size - dest_buffer_size_left)`
  unfoldable pub shrink : Dest → Converted
  shrink d =
      if alloc (d.size - d.left)
      then block (take (d.size - d.left) (d.written ++ garbage (d.size - length d.written)))
      else null

  -- `dest_buffer_size += buffer_inc; dest_buffer_size_left = buffer_inc;`
  unfoldable pub grow : Dest → Dest
  grow d = record d { size = d.size + buffer_inc; left = buffer_inc }

  -- The bytes that `iconv` writes at `dest_buffer_ptr`.
  unfoldable pub advance : Dest → Bytes → Dest
  advance d out = record d { written = d.written ++ out; left = d.left - length out }

  -- Behind the call of `iconv`; `next` is the rest of the loop.
  unfoldable pub after_iconv :
      Bytes → IconvReply C → Dest → (C → Bytes → Dest → Converted) → Converted
  unfolding strdup grow advance
  after_iconv fallback r d next =
      if ltb d.size (length d.written + length r.out) then overrun else elim r.error [
        | no_error ↦ next r.cd r.rest (advance d r.out)
        | other_error ↦ strdup fallback
        | e2big ↦ elim (alloc (d.size + buffer_inc)) [
          | true ↦ next r.cd r.rest (grow (advance d r.out))
          | false ↦ strdup fallback
        ]
      ]

  -- `while (src_buffer_size != 0)`
  unfoldable pub convert_loop : ℕ → Bytes → C → Bytes → Dest → Converted
  unfolding shrink after_iconv
  convert_loop fuel fallback cd [] d = shrink d
  convert_loop zero fallback cd (c ∷ src) d = out_of_fuel
  convert_loop (suc fuel) fallback cd (c ∷ src) d =
      after_iconv fallback (iconv cd (c ∷ src) d.left) d
        (λ cd' src' d'. convert_loop fuel fallback cd' src' d')

  -- `iconv_from_utf8_to_locale`, on what `iconv_open` gives.
  unfoldable pub iconv_from_utf8_to_locale : ℕ → Option C → Bytes → Bytes → Converted
  unfolding convert_loop
  iconv_from_utf8_to_locale fuel none text fallback = strdup fallback
  iconv_from_utf8_to_locale fuel (some cd) text fallback =
      if alloc buffer_inc && alloc (length text + 1)
      then convert_loop fuel fallback cd (text ++ 0 ∷ [])
          (record { written = []; size = buffer_inc; left = buffer_inc })
      else overrun

  -- `degree_sign`
  unfoldable pub degree_sign : ℕ → Option C → Converted
  unfolding iconv_from_utf8_to_locale
  degree_sign fuel cd = iconv_from_utf8_to_locale fuel cd (0xc2 ∷ 0xb0 ∷ []) (b' ' ∷ [])
