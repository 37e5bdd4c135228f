-- ===== src/Db/Lookup/First.antt =====
-- The entry that `is_a_supported_drive` gives.
use hddtemp.Prelude.{
  Bool, true, Option, some, List, [], ◌∷◌, ◌++◌, ◌≡◌, ap, Bytes, Bool-cases, Option-cases, inl, inr,
  ◌↔◌,
}
use hddtemp.Db.{HarddriveEntry}
use hddtemp.Db.Lookup.{found, search_drive, is_a_supported_drive, AllPassOver, FirstMatch}

module _ {R : Type 0} (regcomp : Bytes → Option R) (regexec : R → Bytes → Bool)
    (model : Bytes) where
  search_drive-FirstMatch :
      (entries : List HarddriveEntry) {e : HarddriveEntry}
      → search_drive regcomp regexec model entries ≡ found e
      → FirstMatch regcomp regexec model entries e
  unfolding search_drive
  search_drive-FirstMatch [] h = cc
  search_drive-FirstMatch (p ∷ entries) {e} h = elim (Option-cases (regcomp p.regexp)) [
    | inl c ↦ cc (rw (c, search_drive) at h)
    | inr (preg, c) ↦ elim (Bool-cases (regexec preg model)) [
      | inl m ↦
          let same : found p ≡ found e = rw (c, m, search_drive) at h in
          record {
            before = [];
            after = entries;
            preg = preg;
            splits = cc;
            passed = tt;
            compiles = cc;
            matches = m;
          }
      | inr m ↦
          let ih = search_drive-FirstMatch entries (rw (c, m, search_drive) at h) in
          record {
            before = p ∷ ih.before;
            after = ih.after;
            preg = ih.preg;
            splits = ap (◌∷◌ p) ih.splits;
            passed = ((preg, c, m), ih.passed);
            compiles = ih.compiles;
            matches = ih.matches;
          }
    ]
  ]

  search_drive-before :
      (before after : List HarddriveEntry) (e : HarddriveEntry) (preg : R)
      → AllPassOver regcomp regexec model before
      → regcomp e.regexp ≡ some preg
      → regexec preg model ≡ true
      → search_drive regcomp regexec model (before ++ e ∷ after) ≡ found e
  unfolding search_drive
  search_drive-before [] after e preg a c m = rw (c, search_drive) (rw m)
  search_drive-before (p ∷ before) after e preg ((q, c', m'), a) c m =
      rw (c', search_drive) (rw m' (search_drive-before before after e preg a c m))

  -- The lookup gives `e` exactly when `e` is the first entry whose expression matches the model, and
  -- those before it compile.
  pub is_a_supported_drive_iff :
      (entries : List HarddriveEntry) (e : HarddriveEntry)
      → (is_a_supported_drive regcomp regexec (some model) entries ≡ found e)
        ↔ FirstMatch regcomp regexec model entries e
  unfolding is_a_supported_drive
  is_a_supported_drive_iff entries e = (
    search_drive-FirstMatch entries,
    λ f. rw f.splits (search_drive-before f.before f.after e f.preg f.passed f.compiles f.matches),
  )
