-- ===== src/Daemon/Reply.antt =====
-- What a client reads in a drive's part of the daemon's reply.
use hddtemp.Prelude.{
  ℕ, false, List, [], ◌∷◌, ◌++◌, ◌==◌, ◌≡◌, refl, ap, ◌∙◌, if◌then◌else◌, Bytes, arith,
  append_assoc,
}
use hddtemp.Daemon.{msg_text}

abbrev pub HasNo : ℕ → Bytes → Type 0
HasNo sep [] = Unit {0}
HasNo sep (c ∷ text) = (c == sep ≡ false) × HasNo sep text

abbrev pub push_field : ℕ → List Bytes → List Bytes
push_field c [] = []
push_field c (f ∷ fields) = (c ∷ f) ∷ fields

-- The fields of a reply, as a client splits it at the separator.
abbrev pub split_at : ℕ → Bytes → List Bytes
split_at sep [] = [] ∷ []
split_at sep (c ∷ text) =
    let rest = split_at sep text in if c == sep then [] ∷ rest else push_field c rest

split_at-field :
    (sep : ℕ) (field text : Bytes)
    → HasNo sep field
    → split_at sep (field ++ sep ∷ text) ≡ field ∷ split_at sep text
split_at-field sep [] text h = ground arith
split_at-field sep (c ∷ field) text h = rw (h.0, split_at-field sep field text h.1) refl

msg_text-append :
    (sep : ℕ) (drive model field : Bytes) (last : ℕ) (rest : Bytes)
    → (msg_text sep drive model field last ++ sep ∷ []) ++ rest
      ≡ drive ++ sep ∷ (model ++ sep ∷ (field ++ sep ∷ (last ∷ sep ∷ rest)))
unfolding msg_text
msg_text-append sep drive model field last rest = simp (append_assoc)

split_at-msg_text :
    (sep : ℕ) (drive model field : Bytes) (last : ℕ) (rest : Bytes)
    → HasNo sep drive
    → HasNo sep model
    → HasNo sep field
    → last == sep ≡ false
    → split_at sep (drive ++ sep ∷ (model ++ sep ∷ (field ++ sep ∷ (last ∷ sep ∷ rest))))
      ≡ drive ∷ model ∷ field ∷ (last ∷ []) ∷ split_at sep rest
split_at-msg_text sep drive model field last rest hd hm hf hl =
    split_at-field sep drive _ hd
    ∙ ap (◌∷◌ drive) (
        split_at-field sep model _ hm
        ∙ ap (◌∷◌ model) (
            split_at-field sep field _ hf
            ∙ ap (◌∷◌ field) (split_at-field sep (last ∷ []) rest (hl, tt))))

-- What a client makes of a drive's part of the reply, with any reply behind it.
pub split_at-part :
    (sep : ℕ) (drive model field : Bytes) (last : ℕ) (rest : Bytes)
    → HasNo sep drive
    → HasNo sep model
    → HasNo sep field
    → last == sep ≡ false
    → split_at sep ((sep ∷ (msg_text sep drive model field last ++ sep ∷ [])) ++ rest)
      ≡ [] ∷ drive ∷ model ∷ field ∷ (last ∷ []) ∷ split_at sep rest
split_at-part sep drive model field last rest hd hm hf hl =
    rw (msg_text-append sep drive model field last rest) (
      split_at-field sep [] _ tt
      ∙ ap (◌∷◌ []) (split_at-msg_text sep drive model field last rest hd hm hf hl))
