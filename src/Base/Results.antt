-- ===== src/Base/Results.antt =====
-- What a function of the driver's common code returns, and what can go wrong in it.
use Prim.Native.Nat.{ℕ, zero, suc, ◌<◌}
use native.Mathlib.Omega.{arith}
use mathlib.Core.Bool.{Bool, true, false}
use mathlib.Core.Path.{◌≡◌, refl}
use mathlib.Core.Option.{none, some}
use mathlib.Core.List.{List, [], ◌∷◌}
use gld.Base.Lists.{get_elem?, length, get_or}

-- The error numbers that the modelled functions return.
pub data Errno : Type 0 where
  eacces eagain ealready ebusy edeadlk eexist efault efbig einval eintr eio : Errno
  enodev enoent enomem enospc enotsup etimedout : Errno

-- `fault` is an access out of range, which C leaves undefined; `timeout` is a loop that has not
-- ended within its fuel.
pub data Outcome {ℓ} (A : Type ℓ) : Type ℓ where
  ok : A → Outcome A
  err : Errno → Outcome A
  fault timeout : Outcome A

infixl 5 ◌>>=◌ ◌>>◌
abbrev pub ◌>>=◌ {ℓ κ} : {A : Type ℓ} {B : Type κ} → Outcome A → (A → Outcome B) → Outcome B
ok a >>= f = f a
err e >>= f = err e
fault >>= f = fault
timeout >>= f = timeout

abbrev pub ◌>>◌ {ℓ} : {B : Type ℓ} → Outcome (Unit {0}) → Outcome B → Outcome B
m >> k = m >>= λ _. k

-- `if (bad) { rc = e; goto fail; }`
abbrev pub fail_if : Bool → Errno → Outcome (Unit {0})
fail_if true e = err e
fail_if false e = ok tt

-- A read of `xs[i]`.
abbrev pub read_at {ℓ} : {A : Type ℓ} → List A → ℕ → Outcome A
read_at xs i = elim (get_elem? xs i) [ none ↦ fault | some x ↦ ok x ]

-- `r` is a normal return, with a value that has `P` or with an error number.
abbrev pub Settles {ℓ} : {A : Type ℓ} → (A → Type 0) → Outcome A → Type 0
Settles P (ok a) = P a
Settles P (err e) = Unit {0}
Settles P fault = ⊥
Settles P timeout = ⊥

module _ {ℓ κ} {A : Type ℓ} {B : Type κ} (P : A → Type 0) (Q : B → Type 0) where
  pub Settles->>= :
      (m : Outcome A) (f : A → Outcome B)
      → Settles P m
      → ((a : A) → P a → Settles Q (f a))
      → Settles Q (m >>= f)
  Settles->>= (ok a) f h k = k a h
  Settles->>= (err e) f h k = tt
  Settles->>= fault f h k = h
  Settles->>= timeout f h k = h

-- Inversion of a bind that succeeds.
pub >>=-eq-ok {ℓ κ} :
    {A : Type ℓ} {B : Type κ} (m : Outcome A) (f : A → Outcome B) {y : B}
    → m >>= f ≡ ok y
    → (x : A) × (m ≡ ok x) × (f x ≡ ok y)
>>=-eq-ok fault f h = cc
>>=-eq-ok timeout f h = cc
>>=-eq-ok (err n) f h = cc
>>=-eq-ok (ok x) f h = (x, refl, h)

pub fail_if-eq-ok : (b : Bool) (e : Errno) {u : Unit {0}} → fail_if b e ≡ ok u → b ≡ false
fail_if-eq-ok true e h = cc
fail_if-eq-ok false e h = refl

pub read_at-get {ℓ} :
    {A : Type ℓ} (xs : List A) (i : ℕ) (v : A) → get_elem? xs i ≡ some v → read_at xs i ≡ ok v
read_at-get xs i v h = rw (read_at, h) refl

pub read_at-Settles {ℓ} :
    {A : Type ℓ} (xs : List A) (i : ℕ) → i < length xs → Settles (λ _. Unit {0}) (read_at xs i)
read_at-Settles [] i h = elim h [ ]
read_at-Settles (x ∷ xs) zero h = tt
read_at-Settles (x ∷ xs) (suc i) h = read_at-Settles xs i (omega arith)

pub Settles-mono {ℓ} :
    {A : Type ℓ} (P Q : A → Type 0) (m : Outcome A)
    → Settles P m
    → ((a : A) → P a → Q a)
    → Settles Q m
Settles-mono P Q (ok a) h k = k a h
Settles-mono P Q (err e) h k = tt
Settles-mono P Q fault h k = h
Settles-mono P Q timeout h k = h

pub ok_injective {ℓ} : {A : Type ℓ} {a b : A} → ok a ≡ ok b → a ≡ b
ok_injective h = cc

pub read_at-get_or {ℓ} :
    {A : Type ℓ} (xs : List A) (i : ℕ) (d : A) → i < length xs → read_at xs i ≡ ok (get_or xs i d)
read_at-get_or [] i d h = absurd (omega arith)
read_at-get_or (x ∷ xs) zero d h = refl
read_at-get_or (x ∷ xs) (suc i) d h = read_at-get_or xs i d (omega arith)
