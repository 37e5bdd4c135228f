-- ===== src/Options/Valid.antt =====
-- The options that `main` goes on with are valid.
use hddtemp.Prelude.{
  ℕ, Bool, true, false, not, ◌||◌, List, [], ◌∷◌, ◌==◌, if◌then◌else◌, Bytes, get_or, ◌≡◌, refl,
  inl, inr, ◌⊎◌,
}
use hddtemp.Prelude.Int.{pos}
use hddtemp.Options.{
  Options, initial, Number, Parsed, parsed, shows_version, invalid_separator, invalid_port,
  invalid_interval, other_code, below_one, is_invalid, option_step, parse_rest, parse_options,
}

-- The separator is no NUL, the port is positive, and the interval of the log is 0 or positive.
pub record IsValid (o : Options) : Type 0 where
  pub separator : o.separator == 0 ≡ false
  pub port : below_one o.portnum ≡ false
  pub interval : (o.syslog_interval ≡ pos 0) ⊎ (below_one o.syslog_interval ≡ false)

abbrev pub ParsedValid : Parsed → Type 0
ParsedValid (parsed o) = IsValid o
ParsedValid (shows_version usage) = Unit {0}
ParsedValid invalid_separator = Unit {0}
ParsedValid invalid_port = Unit {0}
ParsedValid invalid_interval = Unit {0}
ParsedValid other_code = Unit {0}

-- The same, as a record, so that a rule can read the parsing it is about.
pub record Fine (p : Parsed) : Type 0 where
  pub at : ParsedValid p

Fine-if :
    (b : Bool) {p q : Parsed}
    → (b ≡ true → Fine p)
    → (b ≡ false → Fine q)
    → Fine (if b then p else q)
Fine-if true hp hq = hp refl
Fine-if false hp hq = hq refl

or-false : (a b : Bool) → a || b ≡ false → b ≡ false
or-false true b h = absurd (cc)
or-false false b h = h

is_invalid-below_one : (n : Number) → is_invalid n ≡ false → below_one n.value ≡ false
unfolding is_invalid
is_invalid-below_one n h =
    or-false (n.erange || not n.moved || not (get_or n.rest 0 0 == 0)) (below_one n.value) h

same-Fine :
    (o o' : Options)
    → IsValid o
    → o'.separator ≡ o.separator
    → o'.portnum ≡ o.portnum
    → o'.syslog_interval ≡ o.syslog_interval
    → Fine (parsed o')
same-Fine o o' h p q r = record {
  at = record { separator = rw p h.separator; port = rw q h.port; interval = rw r h.interval };
}

module _ (strtol : Bytes → Number) where
  option_step-Fine :
      (c : ℕ) (optarg : Bytes) (o : Options) → IsValid o → Fine (option_step strtol c optarg o)
  unfolding option_step
  option_step-Fine c optarg o h =
      Fine-if (c == b'q') (λ _. same-Fine o _ h refl refl refl)
        λ _.
          Fine-if (c == b'4') (λ _. same-Fine o _ h refl refl refl)
            λ _.
              Fine-if (c == b'6') (λ _. same-Fine o _ h refl refl refl)
                λ _.
                  Fine-if (c == b'b') (λ _. same-Fine o _ h refl refl refl)
                    λ _.
                      Fine-if (c == b'd') (λ _. same-Fine o _ h refl refl refl)
                        λ _.
                          Fine-if (c == b'D') (λ _. same-Fine o _ h refl refl refl)
                            λ _.
                              Fine-if (c == b'f') (λ _. same-Fine o _ h refl refl refl)
                                λ _.
                                  Fine-if (c == b's')
                                    (λ _.
                                      Fine-if (get_or optarg 0 0 == 0) (λ _. record { at = tt })
                                        (λ e. record {
                                          at = record {
                                            separator = e;
                                            port = h.port;
                                            interval = h.interval;
                                          };
                                        }))
                                    λ _.
                                      Fine-if (c == b'p')
                                        (λ _.
                                          Fine-if (is_invalid (strtol optarg))
                                            (λ _. record { at = tt })
                                            (λ e. record {
                                              at = record {
                                                separator = h.separator;
                                                port = is_invalid-below_one (strtol optarg) e;
                                                interval = h.interval;
                                              };
                                            }))
                                        λ _.
                                          Fine-if (c == b'u') (λ _. same-Fine o _ h refl refl refl)
                                            λ _.
                                              Fine-if (c == b'l')
                                                (λ _. same-Fine o _ h refl refl refl)
                                                λ _.
                                                  Fine-if (c == b'?' || c == b'h')
                                                    (λ _. record { at = tt })
                                                    λ _.
                                                      Fine-if (c == b'v') (λ _. record { at = tt })
                                                        λ _.
                                                          Fine-if (c == b'n')
                                                            (λ _. same-Fine o _ h refl refl refl)
                                                            λ _.
                                                            Fine-if (c == b'w')
                                                            (λ _. same-Fine o _ h refl refl refl)
                                                            λ _.
                                                            Fine-if (c == b'S')
                                                            (λ _.
                                                            Fine-if (is_invalid (strtol optarg))
                                                            (λ _. record { at = tt })
                                                            (λ e. record {
                                                            at = record {
                                                            separator = h.separator;
                                                            port = h.port;
                                                            interval = inr (
                                                            is_invalid-below_one (strtol optarg) e);
                                                            };
                                                            }))
                                                            λ _.
                                                            Fine-if (c == b'F')
                                                            (λ _. same-Fine o _ h refl refl refl)
                                                            λ _. record { at = tt }

  parse_rest-Fine :
      (p : Parsed) (rest : Options → Parsed)
      → ParsedValid p
      → ((o : Options) → IsValid o → ParsedValid (rest o))
      → ParsedValid (parse_rest strtol p rest)
  unfolding parse_rest
  parse_rest-Fine (parsed o) rest h f = f o h
  parse_rest-Fine (shows_version usage) rest h f = tt
  parse_rest-Fine invalid_separator rest h f = tt
  parse_rest-Fine invalid_port rest h f = tt
  parse_rest-Fine invalid_interval rest h f = tt
  parse_rest-Fine other_code rest h f = tt

  parse_options-keeps :
      (args : List (ℕ × Bytes)) (o : Options)
      → IsValid o
      → ParsedValid (parse_options strtol args o)
  unfolding parse_options
  parse_options-keeps [] o h = h
  parse_options-keeps ((c, optarg) ∷ args) o h =
      parse_rest-Fine (option_step strtol c optarg o) _ (option_step-Fine c optarg o h).at
        (λ o' h'. parse_options-keeps args o' h')

  -- Whatever options are on the command line and whatever numbers `strtol` reads, the program has ended
  -- behind the loop over them, or the separator is no NUL, the port is at least 1, and the interval
  -- of the log is at least 1 unless it was left at 0.
  pub parse_options-IsValid :
      (args : List (ℕ × Bytes)) (path : Bytes)
      → ParsedValid (parse_options strtol args (initial path))
  unfolding below_one
  parse_options-IsValid args path =
      parse_options-keeps args (initial path)
        (record { separator = refl; port = refl; interval = inl refl })
