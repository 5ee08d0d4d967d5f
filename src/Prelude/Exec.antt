-- ===== src/Prelude/Exec.antt =====
-- Code that may panic. On the Internet Computer a panic traps and the state changes of the message
-- are undone, so a trap carries no state.
use mathlib.Core.Path.{◌≡◌, refl}
use mathlib.Core.Bool.{Bool, true, false}
use evm_rpc_canister.Prelude.Texts.{Text, text}

pub data Exec {ℓ} (A : Type ℓ) : Type ℓ where
  returns : A → Exec A
  traps : Text → Exec A

infixl 5 ◌>>=◌ ◌>>◌
abbrev pub ◌>>=◌ {ℓ κ} : {A : Type ℓ} {B : Type κ} → Exec A → (A → Exec B) → Exec B
returns a >>= f = f a
traps m >>= f = traps m

abbrev pub ◌>>◌ {ℓ} : {B : Type ℓ} → Exec (Unit {0}) → Exec B → Exec B
m >> k = m >>= λ _. k

abbrev pub has_returned {ℓ} : {A : Type ℓ} → Exec A → Bool
has_returned (returns a) = true
has_returned (traps m) = false

-- The panic of `Option::unwrap`
unfoldable pub unwrap_none : Text
unfolding text
unwrap_none = text "called `Option::unwrap()` on a `None` value"

-- Inversion of code that returned.
pub >>=-eq-returns {ℓ κ} :
    {A : Type ℓ} {B : Type κ} (m : Exec A) (f : A → Exec B) {b : B}
    → (m >>= f) ≡ returns b
    → (a : A) × (m ≡ returns a) × (f a ≡ returns b)
>>=-eq-returns (returns a) f h = (a, refl, h)
>>=-eq-returns (traps t) f h = cc

-- The value that code returned of which it is known that it returns.
unfoldable pub returned {ℓ} : {A : Type ℓ} (m : Exec A) → has_returned m ≡ true → A
returned (returns a) h = a
returned (traps t) h = cc

pub returned-eq {ℓ} :
    {A : Type ℓ} (m : Exec A) (h : has_returned m ≡ true) → m ≡ returns (returned m h)
unfolding returned
returned-eq (returns a) h = refl
returned-eq (traps t) h = cc
