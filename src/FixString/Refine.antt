-- ===== src/FixString/Refine.antt =====
-- The two functions in place compute the clean name.
use hddtemp.Prelude.{
  ℕ, zero, suc, ◌+◌, ◌-◌, ◌%◌, ◌≤◌, true, false, [], ◌∷◌, ◌++◌, ◌≡◌, refl, sym, ap, ◌∙◌, ◌==◌,
  Bytes, arith, length, set, replicate, length-append, get_or-append, set-append, append_assoc,
  take-append, drop-append, Bool-cases, inl, inr,
}
use hddtemp.FixString.{
  Cursors, byte, skip_leading, wipe, clean, scsi_fixstring, swap_pairs, sata_fixstring,
}
use hddtemp.FixString.Spec.{drop_blanks, compact, tidy, IsTidy, words, tidy-IsTidy, words-tidy}
use hddtemp.FixString.Compress.{compress-Holds, Holds}

module _ (behind : Bytes) where
  wipe_lem :
      (rounds end : ℕ) (name tail : Bytes) (p : ℕ)
      → length tail ≤ rounds
      → p ≡ length name
      → end ≡ p + length tail
      → wipe rounds end (name ++ (tail ++ behind)) p ≡ name ++ (replicate (length tail) 0 ++ behind)
  unfolding wipe
  wipe_lem zero end name [] p le e h = refl
  wipe_lem zero end name (c ∷ tail) p le e h = absurd (omega arith)
  wipe_lem (suc rounds) end name [] p le e h =
      let q : (p == end) ≡ true = ground (arith, h) in rw (q, wipe)
  wipe_lem (suc rounds) end name (c ∷ tail) p le e h =
      let q : (p == end) ≡ false = ground (arith, h) in
      let w : set (name ++ c ∷ (tail ++ behind)) p 0 ≡ (name ++ 0 ∷ []) ++ (tail ++ behind) = rw e (
        set-append name (tail ++ behind) c 0 ∙ sym (append_assoc name (0 ∷ []) (tail ++ behind))) in
      rw (q, wipe)
        (rw w (
          wipe_lem rounds end (name ++ 0 ∷ []) tail (p + 1) (omega arith)
            (omega (arith, e, length-append name (0 ∷ []))) (omega arith)
          ∙ append_assoc name (0 ∷ []) (replicate (length tail) 0 ++ behind)))

  -- `s` stops at the first byte that is not a blank.
  skip_leading_lem :
      (rounds end : ℕ) (before rest : Bytes) (s : ℕ)
      → length rest ≤ rounds
      → s ≡ length before
      → end ≡ s + length rest
      → (mid : Bytes) × (rest ≡ mid ++ drop_blanks rest)
        × (skip_leading rounds end (before ++ (rest ++ behind)) s ≡ s + length mid)
  unfolding skip_leading drop_blanks
  skip_leading_lem zero end before [] s le e h = ([], refl, omega arith)
  skip_leading_lem zero end before (c ∷ rest) s le e h = absurd (omega arith)
  skip_leading_lem (suc rounds) end before [] s le e h =
      let q : (s == end) ≡ true = ground (arith, h) in
      ([], refl, rw (q, skip_leading) (omega arith))
  skip_leading_lem (suc rounds) end before (c ∷ rest) s le e h =
      let q : (s == end) ≡ false = ground (arith, h) in
      let b : byte (before ++ c ∷ (rest ++ behind)) s ≡ c =
        rw e (get_or-append before (rest ++ behind) c 0) in
      elim (Bool-cases (c == b' ')) [
        | inl z ↦
            let (mid, r, k) =
              skip_leading_lem rounds end (before ++ c ∷ []) rest (s + 1) (omega arith)
                (omega (arith, e, length-append before (c ∷ []))) (omega arith) in
            let k' : skip_leading rounds end (before ++ c ∷ (rest ++ behind)) (s + 1)
                ≡ s + 1 + length mid =
              rw (← append_assoc before (c ∷ []) (rest ++ behind)) k in
            (
              c ∷ mid,
              rw (z, drop_blanks) (ap (◌∷◌ c) r),
              rw (q, b, skip_leading) (rw z (k' ∙ omega arith)),
            )
        | inr z ↦ ([], rw (z, drop_blanks), rw (q, b, skip_leading) (rw z (omega arith)))
      ]

  finish :
      (end : ℕ) (cur : Cursors) (name : Bytes)
      → Holds behind cur end name
      → wipe (end - cur.p) end cur.buf cur.p ≡ name ++ (replicate (end - length name) 0 ++ behind)
  finish end cur name h =
      let t : length h.tail ≡ end - length name = omega (arith, h.end_is) in
      rw h.buf_is (
        wipe_lem (end - cur.p) end name h.tail cur.p (omega (arith, h.p_is, h.end_is)) h.p_is
          (omega (arith, h.p_is, h.end_is))
        ∙ ap (λ n. name ++ (replicate n 0 ++ behind)) t)

  -- The three loops: the first `length m` bytes become the clean name with NULs behind it, and what
  -- stands behind them is not touched.
  clean_lem :
      (m : Bytes)
      → clean (length m) (m ++ behind)
        ≡ tidy m ++ (replicate (length m - length (tidy m)) 0 ++ behind)
  unfolding clean tidy
  clean_lem m =
      let (mid, r, k) =
        skip_leading_lem (length m) (length m) [] m 0 (omega arith) refl (omega arith) in
      let sizes : length m ≡ length mid + length (drop_blanks m) =
        ap length r ∙ length-append mid (drop_blanks m) in
      rw k (
        finish (length m) _ (compact (drop_blanks m)) (
          compress-Holds (length m - (0 + length mid)) behind _ (length m) [] mid (drop_blanks m)
            (omega (arith, sizes))
            (record {
              joined = ap (λ t. t ++ behind) r ∙ append_assoc mid (drop_blanks m) behind;
              p_is = refl;
              s_is = refl;
              end_is = omega (arith, sizes);
            })))

pub scsi_fixstring-tidy :
    (m behind : Bytes)
    → scsi_fixstring (m ++ behind) (length m)
      ≡ tidy m ++ (replicate (length m - length (tidy m)) 0 ++ behind)
unfolding scsi_fixstring
scsi_fixstring-tidy m behind = clean_lem behind m

-- `scsi_fixstring` on the first `length m` bytes of a buffer leaves there a name with no blank at either
-- end and none beside another, whose words, its runs of other bytes, are the words of the field up to its
-- first NUL, in their order; it fills the rest of the field with NULs, and does not touch the bytes
-- behind the field.
pub scsi_fixstring-IsTidy :
    (m behind : Bytes)
    → (name : Bytes) × IsTidy name
      × (words name ≡ words m)
      × (scsi_fixstring (m ++ behind) (length m)
          ≡ name ++ (replicate (length m - length name) 0 ++ behind))
scsi_fixstring-IsTidy m behind = (tidy m, tidy-IsTidy m, words-tidy m, scsi_fixstring-tidy m behind)

pub length-swap_pairs : (m : Bytes) → length (swap_pairs m) ≡ length m
unfolding swap_pairs
length-swap_pairs [] = refl
length-swap_pairs (a ∷ []) = refl
length-swap_pairs (a ∷ b ∷ m) = ap (λ n. suc (suc n)) (length-swap_pairs m)

pub sata_fixstring-tidy :
    (m behind : Bytes)
    → length m % 2 ≡ 0
    → sata_fixstring (m ++ behind) (length m)
      ≡ tidy (swap_pairs m) ++ (replicate (length m - length (tidy (swap_pairs m))) 0 ++ behind)
unfolding sata_fixstring
sata_fixstring-tidy m behind e =
    let n : length m - length m % 2 ≡ length m = omega (arith, e) in
    rw (n, take-append m behind, drop-append m behind)
      (rw (← length-swap_pairs m) (clean_lem behind (swap_pairs m)))

-- `sata_fixstring` on an even number of bytes leaves there the same kind of name, of the field with the
-- bytes of every pair exchanged, with NULs behind it, and does not touch the bytes behind the field.
pub sata_fixstring-IsTidy :
    (m behind : Bytes)
    → length m % 2 ≡ 0
    → (name : Bytes) × IsTidy name
      × (words name ≡ words (swap_pairs m))
      × (sata_fixstring (m ++ behind) (length m)
          ≡ name ++ (replicate (length m - length name) 0 ++ behind))
sata_fixstring-IsTidy m behind e = (
  tidy (swap_pairs m),
  tidy-IsTidy (swap_pairs m),
  words-tidy (swap_pairs m),
  sata_fixstring-tidy m behind e,
)
