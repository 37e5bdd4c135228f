-- ===== src/Db/Load/Total.antt =====
-- The outer loop, on a regular file: `load_database` parses its lines one after the other.
use Prim.Native.Nat.{min}
use hddtemp.Prelude.{
  ℕ, zero, suc, ◌+◌, ◌-◌, ◌≤◌, ◌<◌, true, false, none, some, List, [], ◌∷◌, ◌++◌, ◌≡◌, ◌≢◌, refl,
  sym, ap, ◌∙◌, ◌==◌, Bytes, Bool-cases, ltb, ltb→lt, ==_iff, inl, inr, ◌⊎◌, arith, length,
  length-append, take, drop, append_assoc, length-take, length-drop, take-append-drop,
}
use hddtemp.Db.{HarddriveEntry}
use hddtemp.Db.Load.{
  Buffer, Loaded, line_too_long, Scanned, scanned, stop, find_newline, scan_lines, no_line,
  move_down, store, read_loop, load_database, max_line_len,
}
use hddtemp.Db.Load.Lines.{unlines, length-le-line}
use hddtemp.Db.Load.Refine.{Tracks, stops, goes_on, total, scan_lines-Tracks, nil_of_length}
use hddtemp.Db.Load.Spec.{load_lines, IsLoadable}

-- `read` on a regular file: it gives all the bytes that it is asked for, up to the end of the file.
pub record IsRegular {F : Type 0} (read : ℕ → F → Bytes × F) (content : F → Bytes) : Type 0 where
  pub gives : (n : ℕ) (f : F) → (read n f).0 ≡ take n (content f)
  pub leaves : (n : ℕ) (f : F) → content (read n f).1 ≡ drop n (content f)

-- The buffer at the head of the outer loop: the start of a line.
pub record IsPending (b : Buffer) (rest : Bytes) (lines : List Bytes) : Type 0 where
  pub at_start : b.passed ≡ []
  pub no_newline : find_newline b.unread ≡ none
  pub size : total b ≡ max_line_len
  pub splits : b.unread ++ rest ≡ unlines lines
  pub loadable : IsLoadable lines

-- Room is left for at least one byte, while there is a line.
IsPending-room :
    (b : Buffer) (rest : Bytes) (lines : List Bytes)
    → IsPending b rest lines
    → length b.unread < max_line_len
IsPending-room b rest [] p = omega (arith, ap length p.splits, length-append b.unread rest)
IsPending-room b rest (l ∷ ls) p =
    omega (arith, length-le-line b.unread rest l (unlines ls) p.no_newline p.splits, p.loadable.1)

-- At the end of the file nothing is pending.
IsPending-end : (b : Buffer) (lines : List Bytes) → IsPending b [] lines → lines ≡ []
IsPending-end b [] p = refl
IsPending-end b (l ∷ ls) p = absurd (
    omega (
      arith,
      length-le-line b.unread [] l (unlines ls) p.no_newline p.splits,
      ap length p.splits,
      length-append b.unread [],
      length-append l (b'\n' ∷ unlines ls),
    ))

-- A full buffer, or the rest of the file, holds a newline.
filled_newline :
    (u rest : Bytes) (lines : List Bytes)
    → u ≢ []
    → u ++ rest ≡ unlines lines
    → IsLoadable lines
    → (rest ≡ []) ⊎ (length u ≡ max_line_len)
    → find_newline u ≢ none
filled_newline u rest [] ne e h full n =
    ne (nil_of_length u (omega (arith, ap length e, length-append u rest)))
filled_newline u rest (l ∷ ls) ne e h (inl q) n = omega (
  arith,
  length-le-line u rest l (unlines ls) n e,
  ap length q,
  ap length e,
  length-append u rest,
  length-append l (b'\n' ∷ unlines ls),
)
filled_newline u rest (l ∷ ls) ne e h (inr q) n =
    omega (arith, length-le-line u rest l (unlines ls) n e, h.1)

store_unread : (b : Buffer) (chunk : Bytes) → (store b chunk).unread ≡ b.unread ++ chunk
unfolding store
store_unread b chunk = refl

total-store :
    (b : Buffer) (chunk : Bytes)
    → b.passed ≡ []
    → total b ≡ max_line_len
    → length b.unread + length chunk ≤ max_line_len
    → total (store b chunk) ≡ max_line_len
unfolding store total
total-store b chunk e t le =
    omega (arith, ap length e, length-append b.unread chunk, length-drop (length chunk) b.junk)

total-move_down : (b : Buffer) → total (move_down b) ≡ total b
unfolding move_down total
total-move_down b = omega (
  arith,
  length-drop (length b.unread) (b.passed ++ (b.unread ++ b.junk)),
  length-append b.passed (b.unread ++ b.junk),
  length-append b.unread b.junk,
)

-- What the outer loop does with the inner loop's end; `k` is the next round.
abbrev conclude : (Buffer → ℕ → List HarddriveEntry → Loaded) → Scanned → Loaded
conclude k r = elim r [
  | stop l ↦ l
  | scanned b n es ↦ elim (no_line b) [ true ↦ line_too_long | false ↦ k (move_down b) n es ]
]

conclude-Tracks :
    {r : Scanned} (rest : Bytes) (b : Buffer) (target : Loaded)
    (k : Buffer → ℕ → List HarddriveEntry → Loaded)
    → b.passed ≡ []
    → total b ≡ max_line_len
    → find_newline b.unread ≢ none
    → ((b' : Buffer) (n : ℕ) (es : List HarddriveEntry) (lines : List Bytes)
        → IsPending b' rest lines
        → k b' n es ≡ load_lines n es lines)
    → Tracks rest b target r
    → conclude k r ≡ target
unfolding no_line
conclude-Tracks rest b target k e t ne step stops = refl
conclude-Tracks rest b target k e t ne step (goes_on b' n es lines h₁ h₂ h₃ h₄ h₅ h₆ h₇) =
    elim (Bool-cases (length b'.passed == 0)) [
      | inl q ↦ absurd (ne (h₇ (rw e ((==_iff (length b'.passed) 0).0 q))))
      | inr q ↦
          rw (q, conclude, no_line)
            (step (move_down b') n es lines (record {
              at_start = unfold move_down in refl;
              no_newline = unfold move_down in h₁;
              size = total-move_down b' ∙ h₅ ∙ t;
              splits = unfold move_down in h₂;
              loadable = h₃;
            })
              ∙ h₄)
    ]

-- One round of the outer loop, on a chunk that is not empty and is all that was asked for, or
-- reaches the end of the file.
chunk_round :
    (b : Buffer) (chunk rest : Bytes) (numline : ℕ) (entries : List HarddriveEntry)
    (lines : List Bytes) (k : Buffer → ℕ → List HarddriveEntry → Loaded)
    → IsPending b (chunk ++ rest) lines
    → chunk ≢ []
    → length b.unread + length chunk ≤ max_line_len
    → (rest ≡ []) ⊎ (length b.unread + length chunk ≡ max_line_len)
    → ((b' : Buffer) (n : ℕ) (es : List HarddriveEntry) (ls : List Bytes)
        → IsPending b' rest ls
        → k b' n es ≡ load_lines n es ls)
    → conclude k (scan_lines (length (store b chunk).unread) (store b chunk) numline entries)
      ≡ load_lines numline entries lines
unfolding store
chunk_round b chunk rest numline entries lines k p ne le full step =
    let u : Bytes = b.unread ++ chunk in
    let joined : u ++ rest ≡ unlines lines = append_assoc b.unread chunk rest ∙ p.splits in
    let u_length : length u ≡ length b.unread + length chunk = length-append b.unread chunk in
    let u_ne : u ≢ [] = λ q. ne (nil_of_length chunk (omega (arith, u_length, ap length q))) in
    let u_full : (rest ≡ []) ⊎ (length u ≡ max_line_len) = elim full [
      | inl q ↦ inl q
      | inr q ↦ inr (u_length ∙ q)
    ] in
    conclude-Tracks rest (store b chunk) _ k p.at_start (total-store b chunk p.at_start p.size le)
      (filled_newline u rest lines u_ne joined p.loadable u_full) step
      (scan_lines-Tracks (length u) rest (store b chunk) numline entries lines (omega arith) joined
        p.loadable)

-- A read that does not fill the buffer reaches the end of the file.
chunk_left :
    (u k c r : ℕ)
    → u < max_line_len
    → k ≡ min (max_line_len - u) c
    → k + r ≡ c
    → (r ≤ 0) ⊎ (u + k ≡ max_line_len)
chunk_left u k c r lt e s = elim (Bool-cases (ltb c (max_line_len - u))) [
  | inl q ↦ inl (omega (arith, ltb→lt c (max_line_len - u) q))
  | inr q ↦ inr (ground arith)
]

rest_or_full :
    (u chunk rest : Bytes)
    → (length rest ≤ 0) ⊎ (length u + length chunk ≡ max_line_len)
    → (rest ≡ []) ⊎ (length u + length chunk ≡ max_line_len)
rest_or_full u chunk rest (inl e) = inl (nil_of_length rest e)
rest_or_full u chunk rest (inr e) = inr e

module _ {F : Type 0} (read : ℕ → F → Bytes × F) (content : F → Bytes)
    (r : IsRegular read content) where
  pub read_loop-load_lines :
      (fuel : ℕ) (file : F) (b : Buffer) (numline : ℕ) (entries : List HarddriveEntry)
      (lines : List Bytes)
      → length (content file) < fuel
      → IsPending b (content file) lines
      → read_loop read fuel file b numline entries ≡ load_lines numline entries lines
  unfolding read_loop
  read_loop-load_lines zero file b numline entries lines lt p = absurd (omega arith)
  read_loop-load_lines (suc fuel) file b numline entries lines lt p =
      let asked : ℕ = max_line_len - length b.unread in
      let chunk : Bytes = (read asked file).0 in
      let file' : F = (read asked file).1 in
      let c : Bytes = content file in
      let room = IsPending-room b c lines p in
      let taken : chunk ≡ take asked c = r.gives asked file in
      let left : content file' ≡ drop asked c = r.leaves asked file in
      let joined : chunk ++ content file' ≡ c =
        ap (λ t. t ++ content file') taken
        ∙ ap (λ t. take asked c ++ t) left
        ∙ take-append-drop asked c in
      let sizes : length chunk + length (content file') ≡ length c =
        sym (length-append chunk (content file')) ∙ ap length joined in
      let chunk_size = ap length taken ∙ length-take asked c in
      elim (Bool-cases (length chunk == 0)) [
        | inl e ↦
            let none_left : c ≡ [] =
              nil_of_length c (omega (arith, (==_iff (length chunk) 0).0 e, chunk_size, room)) in
            rw (e, read_loop)
              (rw (IsPending-end b lines (rw none_left at p)) (unfold load_lines in refl))
        | inr e ↦
            let ne : length chunk ≢ 0 = λ q. ground (arith, e, q) in
            rw (e, read_loop)
              (chunk_round b chunk (content file') numline entries lines (read_loop read fuel file')
                (rw joined p) (λ q. ne (ap length q)) (omega (arith, chunk_size))
                (rest_or_full b.unread chunk (content file') (
                  chunk_left (length b.unread) (length chunk) (length c) (length (content file'))
                    room chunk_size sizes))
                (λ b' n es ls p'.
                  read_loop-load_lines fuel file' b' n es ls (omega (arith, sizes, ne)) p'))
      ]

  -- `load_database` on a regular file whose lines all end in a newline, are at most 1024 bytes long
  -- with it, and hold no string that runs on behind the line: whatever the buffer held, the call
  -- ends as if each line in turn had been given to `parse_db_line` alone: with the entries of all
  -- lines in the file's order, or at the first line that is refused, with its number. One round of
  -- the outer loop for each byte, and one more, are enough.
  pub load_database-load_lines :
      (fuel : ℕ) (garbage : Bytes) (file : F) (lines : List Bytes)
      → length garbage ≡ max_line_len
      → content file ≡ unlines lines
      → IsLoadable lines
      → length (content file) < fuel
      → load_database read fuel garbage (some file) [] ≡ load_lines 0 [] lines
  unfolding load_database
  load_database-load_lines fuel garbage file lines e q h lt =
      read_loop-load_lines fuel file _ 0 [] lines lt (record {
        at_start = refl;
        no_newline = unfold find_newline in refl;
        size = unfold total in omega (arith, e);
        splits = q;
        loadable = h;
      })
