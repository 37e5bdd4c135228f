-- ===== src/Device/Ensures.antt =====
-- What an action of the drivers ensures: it does not crash, and its result and the state that it
-- leaves are as stated. One rule for each way to build an action.
use hddtemp.Prelude.{Bool, true, false, Option, none, some, ◌≡◌, refl, if◌then◌else◌}
use hddtemp.Device.{Sys, Dev, ◌>>=◌, pure}

module _ {W A : Type 0} where
  abbrev pub Post : (A → Sys W → Type 0) → Option (A × Sys W) → Type 0
  Post P none = ⊥
  Post P (some (a, s)) = P a s

  -- From a state with `Q`, the action `m` leaves `P`.
  pub record Ensures (Q : Sys W → Type 0) (m : Dev W A) (P : A → Sys W → Type 0) : Type 0 where
    pub at : (s : Sys W) → Q s → Post P (m s)

  pub Ensures-pure :
      {Q : Sys W → Type 0} {P : A → Sys W → Type 0} (a : A)
      → ((s : Sys W) → Q s → P a s)
      → Ensures Q (pure a) P
  unfolding pure
  Ensures-pure a h = record { at = h }

  pub Ensures-if :
      {Q : Sys W → Type 0} {P : A → Sys W → Type 0} (b : Bool) {m n : Dev W A}
      → (b ≡ true → Ensures Q m P)
      → (b ≡ false → Ensures Q n P)
      → Ensures Q (if b then m else n) P
  Ensures-if true km kn = km refl
  Ensures-if false km kn = kn refl

  pub Ensures-weaken :
      {Q : Sys W → Type 0} {P P' : A → Sys W → Type 0} {m : Dev W A}
      → Ensures Q m P
      → ((a : A) (s : Sys W) → P a s → P' a s)
      → Ensures Q m P'
  Ensures-weaken {P} {P'} {m} h w = record { at = λ s q. go (m s) (h.at s q) }
    where
      go : (r : Option (A × Sys W)) → Post P r → Post P' r
      go none p = p
      go (some (a, s)) p = w a s p

module _ {W A : Type 0} where
  -- Two facts of the same action.
  Post-both :
      (P P' : A → Sys W → Type 0) (r : Option (A × Sys W))
      → Post P r
      → Post P' r
      → Post (λ a s. P a s × P' a s) r
  Post-both P P' none p p' = absurd p
  Post-both P P' (some (a, s)) p p' = (p, p')

  pub Ensures-both :
      {Q : Sys W → Type 0} {P P' : A → Sys W → Type 0} {m : Dev W A}
      → Ensures Q m P
      → Ensures Q m P'
      → Ensures Q m (λ a s. P a s × P' a s)
  Ensures-both {P} {P'} {m} h h' = record {
    at = λ s q. Post-both P P' (m s) (h.at s q) (h'.at s q);
  }

module _ {W A : Type 0} where
  -- The state that the action came from, with what it gave there.
  abbrev pub RanFrom : (Sys W → Type 0) → Dev W A → A → Sys W → Type 0
  RanFrom Q m a s = (s₀ : Sys W) × Q s₀ × (m s₀ ≡ some (a, s))

  pub Ensures-run :
      {Q : Sys W → Type 0} {P : A → Sys W → Type 0} {m : Dev W A}
      → Ensures Q m P
      → Ensures Q m (λ a s. P a s × RanFrom Q m a s)
  Ensures-run {Q} {P} {m} h = record { at = λ s q. go s q (m s) refl (h.at s q) }
    where
      go :
          (s : Sys W)
          → Q s
          → (r : Option (A × Sys W)) → m s ≡ r
          → Post P r
          → Post (λ a s'. P a s' × RanFrom Q m a s') r
      go s q none e p = p
      go s q (some (a, s')) e p = (p, (s, q, e))

module _ {W A B : Type 0} where
  Post-bind :
      {M : A → Sys W → Type 0} {P : B → Sys W → Type 0} (m : Dev W A) (f : A → Dev W B)
      → ((a : A) → Ensures (M a) (f a) P)
      → (s : Sys W) (r : Option (A × Sys W)) → m s ≡ r
      → Post M r
      → Post P ((m >>= f) s)
  unfolding ◌>>=◌
  Post-bind m f kf s none e p = absurd p
  Post-bind m f kf s (some (a, s')) e p = rw (e, ◌>>=◌) ((kf a).at s' p)

  pub Ensures-bind :
      {Q : Sys W → Type 0} {M : A → Sys W → Type 0} {P : B → Sys W → Type 0} {m : Dev W A}
      {f : A → Dev W B}
      → Ensures Q m M
      → ((a : A) → Ensures (M a) (f a) P)
      → Ensures Q (m >>= f) P
  Ensures-bind {m} {f} km kf = record { at = λ s q. Post-bind m f kf s (m s) refl (km.at s q) }
