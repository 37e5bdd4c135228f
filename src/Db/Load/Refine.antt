-- ===== src/Db/Load/Refine.antt =====
-- The loader implements its specification, however the lines lie in the buffer.
use hddtemp.Prelude.{
  ℕ, zero, suc, ◌+◌, ◌≤◌, ◌<◌, none, some, List, [], ◌∷◌, ◌++◌, ◌≡◌, ◌≢◌, refl, sym, ap, ◌∙◌, Bytes,
  Option-cases, inl, inr, arith, length, length-append, take, drop, append_assoc, take-append,
  drop-append,
}
use hddtemp.Db.{HarddriveEntry}
use hddtemp.Db.Line.{LineResult, no_entry, syntax_error, entry, overrun, parse_db_line}
use hddtemp.Db.Line.Local.{behind, parse_db_line-append}
use hddtemp.Db.Line.Written.{parse_db_line-length}
use hddtemp.Db.Load.{
  Buffer, Loaded, bad_line, buffer_overrun, Scanned, scanned, stop, advance, find_newline,
  scan_lines,
}
use hddtemp.Db.Load.Lines.{unlines, find_newline-line, find_newline-append, find_newline-split}
use hddtemp.Db.Load.Spec.{parse_alone, load_lines, IsLoadable}

take_exact : (n : ℕ) (w r : Bytes) → length w ≡ n → take n (w ++ r) ≡ w
take_exact n w r e = rw (← e) (take-append w r)

drop_exact : (n : ℕ) (w r : Bytes) → length w ≡ n → drop n (w ++ r) ≡ r
drop_exact n w r e = rw (← e) (drop-append w r)

-- The pointers move behind the line, whose bytes are now `w`.
advance_lem :
    (passed w after junk : Bytes) (n : ℕ)
    → length w ≡ n + 1
    → advance passed (w ++ (after ++ junk)) n (length after)
      ≡ record { passed = passed ++ w; unread = after; junk = junk }
advance_lem passed w after junk n e = rw (
  take_exact (n + 1) w (after ++ junk) e,
  drop_exact (n + 1) w (after ++ junk) e,
  take-append after junk,
  drop-append after junk,
)

unfoldable pub total : Buffer → ℕ
total b = length b.passed + (length b.unread + length b.junk)

-- What the inner loop gives, where `rest` follows the unread bytes in the file, and the remaining
-- lines lead the specification to `target`: that end, or a state from which the lines that are
-- left lead to it.
pub data Tracks (rest : Bytes) (b : Buffer) (target : Loaded) : Scanned → Type 0 where
  stops : Tracks rest b target (stop target)
  goes_on :
      (b' : Buffer) (numline : ℕ) (entries : List HarddriveEntry) (lines : List Bytes)
      → find_newline b'.unread ≡ none
      → b'.unread ++ rest ≡ unlines lines
      → IsLoadable lines
      → load_lines numline entries lines ≡ target
      → total b' ≡ total b
      → length b.passed ≤ length b'.passed
      → (length b'.passed ≡ length b.passed → find_newline b.unread ≡ none)
      → Tracks rest b target (scanned b' numline entries)

-- One line further.
Tracks-step :
    (rest : Bytes) (b b₁ : Buffer) (target : Loaded) {r : Scanned}
    → total b₁ ≡ total b
    → length b.passed < length b₁.passed
    → Tracks rest b₁ target r
    → Tracks rest b target r
Tracks-step rest b b₁ target e lt stops = stops
Tracks-step rest b b₁ target e lt (goes_on b' n es ls h₁ h₂ h₃ h₄ h₅ h₆ h₇) =
    goes_on b' n es ls h₁ h₂ h₃ h₄ (h₅ ∙ e) (omega arith) (λ q. absurd (omega arith))

-- The first line of the file's remaining lines is the one that the loop finds.
first_line :
    (u rest line after : Bytes) (lines : List Bytes)
    → find_newline u ≡ some (line, after)
    → u ++ rest ≡ unlines lines
    → IsLoadable lines
    → (ls : List Bytes) × (lines ≡ line ∷ ls) × (after ++ rest ≡ unlines ls)
unfolding find_newline
first_line u rest line after [] f e h = cc (rw e at (find_newline-append u rest f))
first_line u rest line after (l ∷ ls) f e h =
    let found : find_newline (l ++ (b'\n' ∷ unlines ls)) ≡ some (line, after ++ rest) =
      rw e at (find_newline-append u rest f) in
    let q = find_newline-line l (unlines ls) h.0 in (ls, cc (q, found), cc (q, found))

pub nil_of_length : (u : Bytes) → length u ≤ 0 → u ≡ []
nil_of_length [] h = refl
nil_of_length (c ∷ u) h = absurd (omega arith)

parse_in_buffer :
    (line tail : Bytes)
    → parse_alone line ≢ overrun
    → parse_db_line (line ++ (0 ∷ tail)) ≡ behind tail (parse_alone line)
parse_in_buffer line tail n =
    ap parse_db_line (sym (append_assoc line (0 ∷ []) tail))
    ∙ parse_db_line-append (line ++ 0 ∷ []) tail n

parsed :
    (line after : Bytes) (b : Buffer) {p : LineResult}
    → parse_alone line ≡ p
    → p ≢ overrun
    → parse_db_line (line ++ (0 ∷ (after ++ b.junk))) ≡ behind (after ++ b.junk) p
parsed line after b p n =
    parse_in_buffer line (after ++ b.junk) (λ q. n (sym p ∙ q)) ∙ ap (behind (after ++ b.junk)) p

-- No newline is left: the loop ends where it is.
scan_lines-done :
    (rounds : ℕ) (b : Buffer) (numline : ℕ) (entries : List HarddriveEntry)
    → find_newline b.unread ≡ none
    → scan_lines rounds b numline entries ≡ scanned b numline entries
unfolding scan_lines
scan_lines-done zero b numline entries e = refl
scan_lines-done (suc rounds) b numline entries e = rw (e, scan_lines)

-- The state behind a line whose bytes are now `w`.
abbrev behind_line : Buffer → Bytes → Bytes → Buffer
behind_line b w after = record { passed = b.passed ++ w; unread = after; junk = b.junk }

-- One round of the loop.
round : ℕ → Buffer → ℕ → List HarddriveEntry → Bytes → Bytes → LineResult → Scanned
round rounds b numline entries line after no_entry =
    scan_lines rounds (behind_line b (line ++ 0 ∷ []) after) (numline + 1) entries
round rounds b numline entries line after syntax_error = stop (bad_line (numline + 1))
round rounds b numline entries line after (entry e w) =
    scan_lines rounds (behind_line b w after) (numline + 1) (entries ++ e ∷ [])
round rounds b numline entries line after overrun = stop buffer_overrun

length_terminated : (line : Bytes) → length (line ++ 0 ∷ []) ≡ length line + 1
length_terminated line = omega (arith, length-append line (0 ∷ []))

scan_lines-round :
    (rounds : ℕ) (b : Buffer) (numline : ℕ) (entries : List HarddriveEntry) (line after : Bytes)
    (p : LineResult)
    → find_newline b.unread ≡ some (line, after)
    → parse_alone line ≡ p
    → p ≢ overrun
    → scan_lines (suc rounds) b numline entries ≡ round rounds b numline entries line after p
unfolding scan_lines round
scan_lines-round rounds b numline entries line after no_entry f p n =
    rw (f, scan_lines)
      (rw (parsed line after b p n, scan_lines)
        (rw (← append_assoc line (0 ∷ []) (after ++ b.junk)) (
          rw (
            advance_lem b.passed (line ++ 0 ∷ []) after b.junk (length line)
              (length_terminated line)))))
scan_lines-round rounds b numline entries line after syntax_error f p n =
    rw (f, scan_lines) (rw (parsed line after b p n, scan_lines))
scan_lines-round rounds b numline entries line after (entry e w) f p n =
    rw (f, scan_lines)
      (rw (parsed line after b p n, scan_lines)
        (rw (
          advance_lem b.passed w after b.junk (length line)
            (parse_db_line-length (line ++ 0 ∷ []) p ∙ length_terminated line))))
scan_lines-round rounds b numline entries line after overrun f p n = absurd (n refl)

-- Behind the line, whose bytes are now `w`, there are as many bytes as before.
step_behind :
    (rest : Bytes) (b : Buffer) (target : Loaded) (line w after : Bytes) {r : Scanned}
    → find_newline b.unread ≡ some (line, after)
    → length w ≡ length line + 1
    → Tracks rest (behind_line b w after) target r
    → Tracks rest b target r
unfolding total
step_behind rest b target line w after f e t =
    let split : length b.unread ≡ length line + suc (length after) =
      ap length (find_newline-split b.unread f) ∙ length-append line (b'\n' ∷ after) in
    Tracks-step rest b (behind_line b w after) target
      (omega (arith, length-append b.passed w, split, e))
      (omega (arith, length-append b.passed w, e)) t

-- After a line with `p` as its result the loop tracks what the specification does.
round-Tracks :
    (rounds : ℕ) (rest : Bytes) (b : Buffer) (numline : ℕ) (entries : List HarddriveEntry)
    (line after : Bytes) (lines : List Bytes) (p : LineResult)
    → ((b₁ : Buffer) (n : ℕ) (es : List HarddriveEntry)
        → b₁.unread ≡ after
        → Tracks rest b₁ (load_lines n es lines) (scan_lines rounds b₁ n es))
    → find_newline b.unread ≡ some (line, after)
    → parse_alone line ≡ p
    → p ≢ overrun
    → Tracks rest b
        (load_lines numline entries (line ∷ lines))
        (round rounds b numline entries line after p)
unfolding round load_lines
round-Tracks rounds rest b numline entries line after lines no_entry ih f p n =
    rw (p, load_lines)
      (step_behind rest b _ line (line ++ 0 ∷ []) after f (length_terminated line)
        (ih (behind_line b (line ++ 0 ∷ []) after) (numline + 1) entries refl))
round-Tracks rounds rest b numline entries line after lines syntax_error ih f p n =
    rw (p, load_lines) stops
round-Tracks rounds rest b numline entries line after lines (entry e w) ih f p n =
    rw (p, load_lines)
      (step_behind rest b _ line w after f
        (parse_db_line-length (line ++ 0 ∷ []) p ∙ length_terminated line)
        (ih (behind_line b w after) (numline + 1) (entries ++ e ∷ []) refl))
round-Tracks rounds rest b numline entries line after lines overrun ih f p n = absurd (n refl)

-- The inner loop tracks the specification.
pub scan_lines-Tracks :
    (rounds : ℕ) (rest : Bytes) (b : Buffer) (numline : ℕ) (entries : List HarddriveEntry)
    (lines : List Bytes)
    → length b.unread ≤ rounds
    → b.unread ++ rest ≡ unlines lines
    → IsLoadable lines
    → Tracks rest b (load_lines numline entries lines) (scan_lines rounds b numline entries)
scan_lines-Tracks zero rest b numline entries lines le e h =
    let q : find_newline b.unread ≡ none =
      rw (nil_of_length b.unread le) (unfold find_newline in refl) in
    rw (scan_lines-done zero b numline entries q)
      (goes_on b numline entries lines q e h refl refl (omega arith) (λ _. q))
scan_lines-Tracks (suc rounds) rest b numline entries lines le e h =
    elim (Option-cases (find_newline b.unread)) [
      | inl q ↦
          rw (scan_lines-done (suc rounds) b numline entries q)
            (goes_on b numline entries lines q e h refl refl (omega arith) (λ _. q))
      | inr ((line, after), f) ↦
          let (ls, q, e') = first_line b.unread rest line after lines f e h in
          let good : IsLoadable (line ∷ ls) = rw q at h in
          let split : length b.unread ≡ length line + suc (length after) =
            ap length (find_newline-split b.unread f) ∙ length-append line (b'\n' ∷ after) in
          rw
            (
              q,
              scan_lines-round rounds b numline entries line after (parse_alone line) f refl good.2,
            )
            (round-Tracks rounds rest b numline entries line after ls (parse_alone line)
              (λ b₁ n es u.
                scan_lines-Tracks rounds rest b₁ n es ls (rw u (omega (arith, split))) (rw u e')
                  good.3)
              f refl good.2)
    ]
