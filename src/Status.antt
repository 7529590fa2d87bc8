-- ===== src/Status.antt =====
-- base/error.h: errors and the `Status` that every fallible operation returns.
use sandook.Base.{ap, ◌≡◌, Bool, true, false, ℕ}

-- The codes that the modelled operations return.
pub data Error : Type 0 where
  enoent eagain ebusy einval erofs ealready enotsup : Error

-- The Linux number behind a code.
unfoldable pub code : Error → ℕ
code Error.enoent = 2
code Error.eagain = 11
code Error.ebusy = 16
code Error.einval = 22
code Error.erofs = 30
code Error.enotsup = 95
code Error.ealready = 114

-- `fault` stands for a failed assertion, and for an exception that nobody catches: an array's `at`
-- out of range, or a `throw`.
pub data Status {ℓ} (A : Type ℓ) : Type ℓ where
  ok : A → Status A
  err : Error → Status A
  fault : Status A

infixl 5 ◌>>=◌ ◌>>◌
abbrev pub ◌>>=◌ {ℓ κ} : {A : Type ℓ} {B : Type κ} → Status A → (A → Status B) → Status B
ok a >>= f = f a
err e >>= f = err e
fault >>= f = fault

abbrev pub ◌>>◌ {ℓ} : {B : Type ℓ} → Status (Unit {0}) → Status B → Status B
m >> k = m >>= λ _. k

-- `assert(b)`.
abbrev pub check : Bool → Status (Unit {0})
check true = ok tt
check false = fault

ok_value {ℓ} : {A : Type ℓ} → A → Status A → A
ok_value d (ok a) = a
ok_value d (err e) = d
ok_value d fault = d

pub ok-injective {ℓ} : {A : Type ℓ} (a b : A) → ok a ≡ ok b → a ≡ b
unfolding ok_value
ok-injective a b e = ap (ok_value a) e
