-- ===== src/Db/Memory.antt =====
-- A `char *` that walks a buffer. The pointer is the list of the bytes from it up to the end of the
-- buffer, so that a NUL is a byte like another, and a read past the end of the buffer is a fault.
use hddtemp.Prelude.{ℕ, Bool, true, false, Bytes, [], ◌∷◌, ◌++◌, ◌≡◌, ◌≢◌, refl}

pub data Read {ℓ} (A : Type ℓ) : Type ℓ where
  -- the value read, and where the pointer stands
  ok : A → Bytes → Read A
  -- the source returns with an error
  reject : Read A
  -- a byte behind the buffer was read
  fault : Read A

abbrev pub Walk {ℓ} : Type ℓ → Type ℓ
Walk A = Bytes → Read A

infixl 5 ◌>>=◌ ◌>>◌
abbrev pub ◌>>=◌ {ℓ κ} : {A : Type ℓ} {B : Type κ} → Walk A → (A → Walk B) → Walk B
◌>>=◌ p f m = elim (p m) [ ok a m' ↦ f a m' | reject ↦ reject | fault ↦ fault ]

abbrev pub ◌>>◌ {ℓ κ} : {A : Type ℓ} {B : Type κ} → Walk A → Walk B → Walk B
p >> q = p >>= λ _. q

unfoldable pub pure {ℓ} : {A : Type ℓ} → A → Walk A
pure a m = ok a m

-- `*p`
unfoldable pub peek : Walk ℕ
peek [] = fault
peek (c ∷ m) = ok c (c ∷ m)

-- `*p++`
unfoldable pub next : Walk ℕ
next [] = fault
next (c ∷ m) = ok c m

-- `if(!b) return 1;`
unfoldable pub require : Bool → Walk (Unit {0})
require true m = ok tt m
require false m = reject

-- The same read in a buffer that goes on behind the first: `tail` stands behind the pointer too.
abbrev pub onto {ℓ} : {A : Type ℓ} → Bytes → Read A → Read A
onto tail (ok a m) = ok a (m ++ tail)
onto tail reject = reject
onto tail fault = fault

-- A walk that stays inside its buffer does the same in a buffer that goes on behind it.
pub record IsLocal {ℓ} {A : Type ℓ} (p : Walk A) : Type ℓ where
  pub at : (m tail : Bytes) → p m ≢ fault → p (m ++ tail) ≡ onto tail (p m)

pub pure-IsLocal {ℓ} : {A : Type ℓ} (a : A) → IsLocal (pure a)
unfolding pure
pure-IsLocal a = record { at = λ m tail n. refl }

require_at : (b : Bool) (m tail : Bytes) → require b (m ++ tail) ≡ onto tail (require b m)
unfolding require
require_at true m tail = refl
require_at false m tail = refl

pub require-IsLocal : (b : Bool) → IsLocal (require b)
require-IsLocal b = record { at = λ m tail n. require_at b m tail }

peek_at : (m tail : Bytes) → peek m ≢ fault → peek (m ++ tail) ≡ onto tail (peek m)
unfolding peek
peek_at [] tail n = absurd (n refl)
peek_at (c ∷ m) tail n = refl

pub peek-IsLocal : IsLocal peek
peek-IsLocal = record { at = peek_at }

next_at : (m tail : Bytes) → next m ≢ fault → next (m ++ tail) ≡ onto tail (next m)
unfolding next
next_at [] tail n = absurd (n refl)
next_at (c ∷ m) tail n = refl

pub next-IsLocal : IsLocal next
next-IsLocal = record { at = next_at }

module _ {ℓ κ} {A : Type ℓ} {B : Type κ} where
  bind_at :
      (p : Walk A) (f : A → Walk B)
      → IsLocal p
      → ((a : A) → IsLocal (f a))
      → (m tail : Bytes) (r : Read A) → p m ≡ r
      → (p >>= f) m ≢ fault
      → (p >>= f) (m ++ tail) ≡ onto tail ((p >>= f) m)
  bind_at p f lp lf m tail (ok a m₁) e n =
      let step : p (m ++ tail) ≡ ok a (m₁ ++ tail) = rw (lp.at m tail (λ q. cc)) (rw e) in
      rw (step, e, ◌>>=◌) ((lf a).at m₁ tail (λ q. n (rw (e, ◌>>=◌) q)))
  bind_at p f lp lf m tail reject e n =
      let step : p (m ++ tail) ≡ reject = rw (lp.at m tail (λ q. cc)) (rw e) in rw (step, e, ◌>>=◌)
  bind_at p f lp lf m tail fault e n = absurd (n (rw (e, ◌>>=◌)))

  -- A block of local steps is local.
  pub bind-IsLocal :
      (p : Walk A) (f : A → Walk B) → IsLocal p → ((a : A) → IsLocal (f a)) → IsLocal (p >>= f)
  bind-IsLocal p f lp lf = record { at = λ m tail. bind_at p f lp lf m tail (p m) refl }

pub ruleset local_rules = (pure-IsLocal, require-IsLocal, peek-IsLocal, next-IsLocal, bind-IsLocal)

module _ {ℓ κ} {A : Type ℓ} {B : Type κ} where
  -- Both steps of a block that succeeds do.
  pub bind-eq-ok :
      (p : Walk A) (f : A → Walk B) (m : Bytes) {b : B} {m' : Bytes}
      → (p >>= f) m ≡ ok b m'
      → (a : A) × (m₁ : Bytes) × (p m ≡ ok a m₁) × (f a m₁ ≡ ok b m')
  bind-eq-ok p f m = go (p m) refl
    where
      go :
          (r : Read A)
          → p m ≡ r
          → {b : B} {m' : Bytes} → (p >>= f) m ≡ ok b m'
          → (a : A) × (m₁ : Bytes) × (p m ≡ ok a m₁) × (f a m₁ ≡ ok b m')
      go (ok a m₁) e h = (a, m₁, e, rw (e, ◌>>=◌) at h)
      go reject e h = cc (rw (e, ◌>>=◌) at h)
      go fault e h = cc (rw (e, ◌>>=◌) at h)
