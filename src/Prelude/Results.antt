-- ===== src/Prelude/Results.antt =====
-- Rust's `Result`.
use mathlib.Core.Path.{◌≡◌, refl, ap, ◌∙◌}
use mathlib.Core.Option.{Option, none, some}
use mathlib.Core.List.{List, [], ◌∷◌}

pub data Result {ℓ κ} (A : Type ℓ) (E : Type κ) : Type (ℓ ⊔ κ) where
  ok : A → Result A E
  err : E → Result A E

module _ {ℓ κ μ} {A : Type ℓ} {E : Type κ} {B : Type μ} where
  -- `Result::and_then`, and the operator `?`
  infixl 5 ◌>>=◌
  abbrev pub ◌>>=◌ : Result A E → (A → Result B E) → Result B E
  ok a >>= f = f a
  err e >>= f = err e

  -- `Result::map`
  abbrev pub map_ok : (A → B) → Result A E → Result B E
  map_ok f (ok a) = ok (f a)
  map_ok f (err e) = err e

  -- `Result::map_err`
  abbrev pub map_err : (E → B) → Result A E → Result A B
  map_err f (ok a) = ok a
  map_err f (err e) = err (f e)

-- `Option::ok_or`
abbrev pub ok_or {ℓ κ} : {A : Type ℓ} {E : Type κ} → Option A → E → Result A E
ok_or none e = err e
ok_or (some a) e = ok a

-- `Option::unwrap_or`
abbrev pub unwrap_or {ℓ} : {A : Type ℓ} → Option A → A → A
unwrap_or none d = d
unwrap_or (some a) d = a

-- A step gave a value, with which the next one gave `b`.
abbrev pub Passed {ℓ κ μ} :
    {A : Type ℓ} {E : Type κ} {B : Type μ} → Result A E → (A → Result B E) → B → Type (ℓ ⊔ κ ⊔ μ)
Passed {A} step next b = (a : A) × (step ≡ ok a) × (next a ≡ ok b)

-- Where two steps succeed, the first one did.
pub ok-Passed {ℓ κ μ} :
    {A : Type ℓ} {E : Type κ} {B : Type μ} (step : Result A E) (next : A → Result B E) {b : B}
    → ◌≡◌ {A = Result B E} (step >>= next) (ok b)
    → Passed step next b
ok-Passed (err e) next k = cc k
ok-Passed (ok a) next k = (a, refl, k)

pub ok-inj {ℓ κ} : {A : Type ℓ} {E : Type κ} {a b : A} → ◌≡◌ {A = Result A E} (ok a) (ok b) → a ≡ b
ok-inj h = cc

module _ {ℓ κ μ} {A : Type ℓ} {B : Type κ} {E : Type μ} (f : A → Result B E) where
  -- `Option::map` and `Option::transpose`
  unfoldable pub transpose : Option A → Result (Option B) E
  transpose none = ok none
  transpose (some a) = map_ok some (f a)

  -- `Iterator::collect` of results: the first error, if there is one
  unfoldable pub collect_results : List A → Result (List B) E
  collect_results [] = ok []
  collect_results (a ∷ l) = let rest = collect_results l in f a >>= λ b. rest >>= λ bs. ok (b ∷ bs)

-- A step that succeeds, before one that does.
pub >>=-succeeds {ℓ κ μ} :
    {A : Type ℓ} {E : Type κ} {B : Type μ} (m : Result A E) (f : A → Result B E) (a : A)
    → m ≡ ok a
    → ((b : B) × (f a ≡ ok b))
    → (b : B) × ((m >>= f) ≡ ok b)
>>=-succeeds (ok c) f a e (b, h) = (b, ap f (ok-inj e) ∙ h)
>>=-succeeds (err c) f a e s = cc e
