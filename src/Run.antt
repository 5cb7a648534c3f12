-- ===== src/Run.antt =====
-- The outcome of C code: src/core/inc/libp/assert.h stops the program at a failed assertion.
use tcp_striper.Base.{Bool, true, false, ◌≡◌, refl}

-- `aborted` is a failed assertion, after which nothing runs.
pub data Run {ℓ} (A : Type ℓ) : Type ℓ where
  ok : A → Run A
  aborted : Run A

infixl 5 ◌>>=◌ ◌>>◌
abbrev pub ◌>>=◌ {ℓ κ} : {A : Type ℓ} {B : Type κ} → Run A → (A → Run B) → Run B
ok a >>= f = f a
aborted >>= f = aborted

abbrev pub ◌>>◌ {ℓ} : {B : Type ℓ} → Run (Unit {0}) → Run B → Run B
m >> k = m >>= λ _. k

-- `assert(exp)` with the handler that core/src/assert.c installs.
abbrev pub assert : Bool → Run (Unit {0})
assert true = ok tt
assert false = aborted

-- The code runs to its end, and what it returns satisfies `P`.
abbrev pub Returns {ℓ} : {A : Type ℓ} → (A → Type 0) → Run A → Type 0
Returns P (ok a) = P a
Returns P aborted = ⊥

pub Returns-bind {ℓ κ} :
    {A : Type ℓ} {B : Type κ} (P : A → Type 0) (Q : B → Type 0) (m : Run A) (f : A → Run B)
    → Returns P m
    → ((a : A) → P a → Returns Q (f a))
    → Returns Q (m >>= f)
Returns-bind P Q (ok a) f h k = k a h
Returns-bind P Q aborted f h k = elim h [ ]

pub Returns-imp {ℓ} :
    {A : Type ℓ} (P Q : A → Type 0) (m : Run A) → Returns P m → ((a : A) → P a → Q a) → Returns Q m
Returns-imp P Q (ok a) h k = k a h
Returns-imp P Q aborted h k = elim h [ ]

-- A result that is known to satisfy `P` is a result.
pub Returns-value {ℓ} :
    {A : Type ℓ} (P : A → Type 0) (m : Run A) → Returns P m → (a : A) × (m ≡ ok a) × P a
Returns-value P (ok a) h = (a, refl, h)
Returns-value P aborted h = elim h [ ]

pub assert_holds {ℓ} : {A : Type ℓ} (b : Bool) (m : Run A) → b ≡ true → (assert b >> m) ≡ m
assert_holds true m e = refl
assert_holds false m e = cc
