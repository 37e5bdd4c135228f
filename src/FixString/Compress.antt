-- ===== src/FixString/Compress.antt =====
-- The loop `compress` in place: the pointer that writes never passes the one that reads.
use hddtemp.Prelude.{
  ℕ, zero, suc, ◌+◌, ◌-◌, ◌≤◌, Bool, true, false, not, ◌&&◌, ◌||◌, [], ◌∷◌, ◌++◌, ◌≡◌, refl, sym,
  ◌∙◌, ◌==◌, if◌then◌else◌, Bytes, arith, length, set, length-append, get_or-append, set-append,
  append_assoc, append-nil, Bool-cases, inl, inr,
}
use hddtemp.FixString.{Cursors, byte, compress_step, compress}
use hddtemp.FixString.Spec.{starts_solid, compact}

-- `s == end` when `m` bytes stand between them.
at_end : (m : Bytes) (s end : ℕ) → s + length m ≡ end → (s == end) ≡ (length m == 0)
at_end m s end e = ground arith

-- A cut of the buffer at `p` and `s`: the name so far, what the two pointers have between them, and
-- what is still to read.
pub record Cut (behind : Bytes) (cur : Cursors) (end : ℕ) (out mid rest : Bytes) : Type 0 where
  pub joined : cur.buf ≡ out ++ (mid ++ (rest ++ behind))
  pub p_is : cur.p ≡ length out
  pub s_is : cur.s ≡ length out + length mid
  pub end_is : end ≡ cur.s + length rest

get-cut :
    (out mid : Bytes) (c : ℕ) (rest : Bytes) (s : ℕ)
    → s ≡ length out + length mid
    → byte (out ++ (mid ++ c ∷ rest)) s ≡ c
get-cut out mid c rest s e =
    rw (e, ← length-append out mid, ← append_assoc out mid (c ∷ rest))
      (get_or-append (out ++ mid) rest c 0)

-- Writing `c` at `p` after reading it: the cut moves one byte on.
write :
    (out mid : Bytes) (c : ℕ) (rest : Bytes)
    → (mid' : Bytes) × (set (out ++ (mid ++ c ∷ rest)) (length out) c
        ≡ (out ++ c ∷ []) ++ (mid' ++ rest))
      × (length mid' ≡ length mid)
write out [] c rest = ([], set-append out rest c c ∙ sym (append_assoc out (c ∷ []) rest), refl)
write out (m ∷ mid) c rest = (
  mid ++ c ∷ [],
  set-append out (mid ++ c ∷ rest) m c ∙ simp append_assoc,
  omega (arith, length-append mid (c ∷ [])),
)

-- The test of the loop's `if`, at the byte behind `c`.
next_solid :
    (behind : Bytes) (cur : Cursors) (end : ℕ) (out mid : Bytes) (c : ℕ) (r : Bytes)
    → Cut behind cur end out mid (c ∷ r)
    → (not (cur.s + 1 == end)
        && (not (byte cur.buf (cur.s + 1) == 0) && not (byte cur.buf (cur.s + 1) == b' ')))
      ≡ starts_solid r
next_solid behind cur end out mid c [] h = ground (arith, h.end_is)
next_solid behind cur end out mid c (d ∷ r) h =
    let e : byte cur.buf (cur.s + 1) ≡ d =
      rw (h.joined, ← append_assoc mid (c ∷ []) (d ∷ (r ++ behind)))
        (get-cut out (mid ++ c ∷ []) d (r ++ behind) (cur.s + 1)
          (omega (arith, h.s_is, length-append mid (c ∷ [])))) in
    rw e (ground (arith, h.end_is))

-- The cut after a round.
record Next (behind : Bytes) (cur : Cursors) (end : ℕ) (out : Bytes) (c : ℕ) (r : Bytes)
    (keep : Bool) : Type 0 where
  mid : Bytes
  cut : Cut behind cur end (if keep then out ++ c ∷ [] else out) mid r

compress_step-Cut :
    (behind : Bytes) (cur : Cursors) (end : ℕ) (out mid : Bytes) (c : ℕ) (r : Bytes)
    → Cut behind cur end out mid (c ∷ r)
    → Next behind (compress_step end cur) end out c r (not (c == b' ') || starts_solid r)
unfolding compress_step
compress_step-Cut behind cur end out mid c r h =
    let e : byte cur.buf cur.s ≡ c = rw h.joined (get-cut out mid c (r ++ behind) cur.s h.s_is) in
    let e' : byte cur.buf (cur.s + 1 - 1) ≡ c =
      rw h.joined (get-cut out mid c (r ++ behind) (cur.s + 1 - 1) (omega (arith, h.s_is))) in
    rw (next_solid behind cur end out mid c r h, e, compress_step)
      (elim (Bool-cases (not (c == b' ') || starts_solid r)) [
        | inl k ↦
            rw (k, e', h.p_is, h.joined)
              (let (mid', w, l) = write out mid c (r ++ behind) in
                record {
                  mid = mid';
                  cut = record {
                    joined = w;
                    p_is = omega (arith, length-append out (c ∷ []));
                    s_is = omega (arith, h.s_is, l, length-append out (c ∷ []));
                    end_is = omega (arith, h.end_is);
                  };
                })
        | inr k ↦ rw k (record {
          mid = mid ++ c ∷ [];
          cut = record {
            joined = h.joined ∙ simp append_assoc;
            p_is = h.p_is;
            s_is = omega (arith, h.s_is, length-append mid (c ∷ []));
            end_is = omega (arith, h.end_is);
          };
        })
      ])

-- A buffer that holds `name` up to `p`.
pub record Holds (behind : Bytes) (cur : Cursors) (end : ℕ) (name : Bytes) : Type 0 where
  pub tail : Bytes
  pub buf_is : cur.buf ≡ name ++ (tail ++ behind)
  pub p_is : cur.p ≡ length name
  pub end_is : end ≡ length name + length tail

stop_here :
    (behind : Bytes) (cur : Cursors) (end : ℕ) (out mid rest : Bytes)
    → Cut behind cur end out mid rest
    → Holds behind cur end (out ++ [])
stop_here behind cur end out mid rest h = rw append-nil (record {
  tail = mid ++ rest;
  buf_is = h.joined ∙ simp append_assoc;
  p_is = h.p_is;
  end_is = omega (arith, h.end_is, h.s_is, length-append mid rest);
})

pub compress-Holds :
    (rounds : ℕ) (behind : Bytes) (cur : Cursors) (end : ℕ) (out mid rest : Bytes)
    → length rest ≤ rounds
    → Cut behind cur end out mid rest
    → Holds behind (compress rounds end cur) end (out ++ compact rest)
unfolding compress compact
compress-Holds zero behind cur end out mid [] le h = stop_here behind cur end out mid [] h
compress-Holds zero behind cur end out mid (c ∷ r) le h = absurd (omega arith)
compress-Holds (suc rounds) behind cur end out mid [] le h =
    let e : (cur.s == end) ≡ true = ground (arith, h.end_is) in
    rw (e, compress) (stop_here behind cur end out mid [] h)
compress-Holds (suc rounds) behind cur end out mid (c ∷ r) le h =
    let e : (cur.s == end) ≡ false = ground (arith, h.end_is) in
    let b : byte cur.buf cur.s ≡ c = rw h.joined (get-cut out mid c (r ++ behind) cur.s h.s_is) in
    let n = compress_step-Cut behind cur end out mid c r h in
    rw (e, b, compress)
      (elim (Bool-cases (c == 0)) [
        | inl z ↦ rw (z, compress, compact) (stop_here behind cur end out mid (c ∷ r) h)
        | inr z ↦
            rw (z, compress, compact)
              (elim (Bool-cases (not (c == b' ') || starts_solid r)) [
                | inl k ↦
                    let m : Next behind (compress_step end cur) end out c r true = rw k at n in
                    rw (k, ← append_assoc out (c ∷ []) (compact r))
                      (compress-Holds rounds behind (compress_step end cur) end (out ++ c ∷ [])
                        m.mid r (omega arith) m.cut)
                | inr k ↦
                    let m : Next behind (compress_step end cur) end out c r false = rw k at n in
                    rw k (
                      compress-Holds rounds behind (compress_step end cur) end out m.mid r
                        (omega arith) m.cut)
              ])
      ])
