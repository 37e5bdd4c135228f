-- ===== src/Tests/Locale.antt =====
-- The conversion of the degree sign, by an `iconv` that copies, and a name of a report.
use hddtemp.Prelude.{
  codes, ℕ, zero, suc, ◌≤◌, ◌<◌, Bool, true, false, Option, some, [], ◌∷◌, ◌++◌, ◌≡◌, refl, ap, leb,
  if◌then◌else◌, Bytes, length, take, drop, replicate, arith,
}
use hddtemp.Backtrace.{sic_switch}
use hddtemp.Backtrace.Named.{has_label, sic_switch-last}
use hddtemp.Utf8.{IconvReply, no_error, e2big, iconv_from_utf8_to_locale}
use hddtemp.Utf8.Total.{Promises, IsConverter, Holds, iconv_from_utf8_to_locale-Holds}

-- A copy of as much as there is room for.
abbrev copy_as_far : Bool → Bytes → ℕ → IconvReply (Unit {0})
copy_as_far true src room = record { cd = tt; out = src; rest = []; error = no_error }
copy_as_far false src room = record {
  cd = tt;
  out = take room src;
  rest = drop room src;
  error = e2big;
}

abbrev copy : Unit {0} → Bytes → ℕ → IconvReply (Unit {0})
copy cd src room = copy_as_far (leb (length src) room) src room

abbrev whole : Unit {0} → Bytes → Option Bytes
whole cd src = some src

take-fits : (n : ℕ) (l : Bytes) → length (take n l) ≤ n
take-fits zero l = omega arith
take-fits (suc n) [] = omega arith
take-fits (suc n) (c ∷ l) = omega (arith, take-fits n l)

take-drop : (n : ℕ) (l : Bytes) → l ≡ take n l ++ drop n l
take-drop zero l = refl
take-drop (suc n) [] = refl
take-drop (suc n) (c ∷ l) = ap (c ∷◌) (take-drop n l)

drop-shorter : (n : ℕ) (l : Bytes) → n < length l → 0 < n → length (drop n l) < length l
drop-shorter zero l h p = absurd (omega arith)
drop-shorter (suc zero) [] h p = absurd (omega arith)
drop-shorter (suc zero) (c ∷ l) h p = omega arith
drop-shorter (suc (suc n)) [] h p = absurd (omega arith)
drop-shorter (suc (suc n)) (c ∷ l) h p =
    omega (arith, drop-shorter (suc n) l (omega arith) (omega arith))

copy-fits :
    (b : Bool) (src : Bytes) (room : ℕ)
    → leb (length src) room ≡ b
    → length (copy_as_far b src room).out ≤ room
copy-fits true src room e = ground arith
copy-fits false src room e = take-fits room src

copy-converts :
    (b : Bool) (src : Bytes) (room : ℕ)
    → leb (length src) room ≡ b
    → Promises whole
        (some src)
        room
        (length src)
        (copy_as_far b src room)
        (copy_as_far b src room).error
copy-converts true src room e = (refl, refl)
copy-converts false src room e =
    (ap some (take-drop room src), λ w. drop-shorter room src (ground arith) (omega (arith, w)))

copy-IsConverter : IsConverter copy whole
copy-IsConverter = record {
  fits = λ cd src room. copy-fits (leb (length src) room) src room refl;
  converts = λ cd src room. copy-converts (leb (length src) room) src room refl;
  empty = λ cd. refl;
}

iconv_from_utf8_to_locale-Holds_example :
    Holds (b' ' ∷ []) (whole tt ((0xc2 ∷ 0xb0 ∷ []) ++ 0 ∷ [])) (
      iconv_from_utf8_to_locale copy
        (λ n. true)
        (λ n. replicate n 7)
        3
        (some tt)
        (0xc2 ∷ 0xb0 ∷ [])
        (b' ' ∷ []))
iconv_from_utf8_to_locale-Holds_example =
    iconv_from_utf8_to_locale-Holds copy (λ n. true) (λ n. replicate n 7) whole copy-IsConverter
      (λ n. refl) (b' ' ∷ []) 3 tt (0xc2 ∷ 0xb0 ∷ []) (omega arith)

sic_switch-last_example :
    sic_switch 1 ((1, codes "SEGV_MAPERR") ∷ (2, codes "SEGV_ACCERR") ∷ []) [] ≡ (
      if has_label 1 ((1, codes "SEGV_MAPERR") ∷ (2, codes "SEGV_ACCERR") ∷ [])
      then codes "SEGV_ACCERR"
      else [])
sic_switch-last_example =
    sic_switch-last 1 ((1, codes "SEGV_MAPERR") ∷ []) 2 (codes "SEGV_ACCERR") []
