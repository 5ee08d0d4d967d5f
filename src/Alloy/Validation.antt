-- ===== src/Alloy/Validation.antt =====
-- What alloy's types take of the services' answers (`evm_rpc_types/src/response/alloy.rs`).
use evm_rpc_canister.Prelude.{
  ℕ, ◌^◌, ◌<◌, ◌≤◌, ◌≡◌, ◌↔◌, Bool, subst, ◌⊎◌, ◌∙◌, refl, ap, sym, true, false, ltb, ◌==◌, Option,
  none, some, Text, ok, err, ok-inj, map_ok, transpose, Bool-cases, inl, inr, arith, if◌then◌else◌,
}
use evm_rpc_canister.Types.Error.{RpcResult}
use evm_rpc_canister.Numbers.Nat256.{Nat256}
use evm_rpc_canister.Numbers.Hex.{Hex32}
use evm_rpc_canister.Conversion.{map_some}
use evm_rpc_canister.Alloy.{
  Word, u64, u128, word_bound, Primitives, U256, u256_of, u256_of_value, b256_of_hex32,
}
use evm_rpc_canister.Alloy.Responses.{
  paris_block, byzantium_block, eip658, post_state, Eip658Value, try_from_nat256,
  validate_difficulty, post_paris_difficulty, pre_paris_difficulty, validate_receipt_status,
  pre_byzantium_status, post_byzantium_status,
}

-- A number that is given fits in a word.
abbrev pub Fits : Word → Option Nat256 → Type 0
Fits w none = Unit
Fits w (some v) = v.nat < word_bound w

module _ (A : Primitives) where
  pub try_from_nat256-fits :
      (w : Word) (v : Nat256) (name : Text)
      → v.nat < word_bound w
      → try_from_nat256 A w v name ≡ ok v.nat
  unfolding try_from_nat256
  try_from_nat256-fits u64 v name h = ground (arith, h)
  try_from_nat256-fits u128 v name h = ground (arith, h)

  pub try_from_nat256-ok :
      (w : Word) (v : Nat256) (name : Text) {n : ℕ}
      → try_from_nat256 A w v name ≡ ok n
      → (v.nat < word_bound w) × (n ≡ v.nat)
  unfolding try_from_nat256
  try_from_nat256-ok u64 v name h = ground (arith, h)
  try_from_nat256-ok u128 v name h = ground (arith, h)

  pub transpose-Fits :
      (w : Word) (o : Option Nat256) (name : Text)
      → Fits w o
      → transpose (λ v. try_from_nat256 A w v name) o ≡ ok (map_some (λ v. v.nat) o)
  unfolding transpose
  transpose-Fits w none name h = refl
  transpose-Fits w (some v) name h = ap (map_ok some) (try_from_nat256-fits w v name h)

  pub transpose-ok :
      (w : Word) (o : Option Nat256) (name : Text) {n : Option ℕ}
      → transpose (λ v. try_from_nat256 A w v name) o ≡ ok n
      → Fits w o × (n ≡ map_some (λ v. v.nat) o)
  unfolding transpose
  transpose-ok w none name h = (tt, cc h)
  transpose-ok w (some v) name {n} h = some_ok (try_from_nat256 A w v name) refl h
    where
      some_ok :
          (r : RpcResult ℕ)
          → try_from_nat256 A w v name ≡ r
          → map_ok some r ≡ ok n
          → Fits w (some v) × (n ≡ some v.nat)
      some_ok (ok m) e k =
          let f = try_from_nat256-ok w v name e in (f.0, sym (ok-inj k) ∙ ap some f.1)
      some_ok (err m) e k = cc k

-- The rule for the difficulty of a block: before the Paris upgrade it is there, and since then it is
-- absent or zero.
abbrev pub DifficultyRule : ℕ → Option Nat256 → Type 0
DifficultyRule number none = paris_block ≤ number
DifficultyRule number (some d) = (number < paris_block) ⊎ (d.nat ≡ 0)

-- The difficulty that alloy's block gets
abbrev pub shown_difficulty : Option Nat256 → ℕ
shown_difficulty none = 0
shown_difficulty (some d) = d.nat

module _ (A : Primitives) where
  new_value : (n : ℕ) → n < 2 ^ 128 → A.uint.value (A.uint.new n) ≡ n
  new_value n h = A.uint.new_value n h

  pub difficulty-ok :
      (number : Nat256) (d : Option Nat256) {u : U256 A}
      → validate_difficulty A number d ≡ ok u
      → DifficultyRule number.nat d × (A.uint.value u ≡ shown_difficulty d)
  unfolding validate_difficulty pre_paris_difficulty post_paris_difficulty
  difficulty-ok number none h = ground (arith, h, new_value 0 (omega arith))
  difficulty-ok number (some d) h = ground (arith, h, new_value 0 (omega arith), u256_of_value A d)

  pub difficulty-accepted :
      (number : Nat256) (d : Option Nat256)
      → DifficultyRule number.nat d
      → (u : U256 A) × (validate_difficulty A number d ≡ ok u)
  unfolding validate_difficulty pre_paris_difficulty post_paris_difficulty
  difficulty-accepted number none h = (A.uint.new 0, ground (arith, h))
  difficulty-accepted number (some d) (inl h) = (u256_of A d, ground (arith, h))
  difficulty-accepted number (some d) (inr h) = elim (Bool-cases (ltb number.nat paris_block)) [
    | inl e ↦ (u256_of A d, ground (arith, e))
    | inr e ↦ (A.uint.new 0, ground (arith, e, h, u256_of_value A d))
  ]

  -- Which status of a receipt alloy's types show: before the Byzantium upgrade the root of the state,
  -- and since then whether the status is 1 or 0.
  abbrev pub StatusRule : ℕ → Option Hex32 → Option Nat256 → Eip658Value A → Type 0
  StatusRule number root status (post_state h) =
      (number < byzantium_block) × (map_some (b256_of_hex32 A) root ≡ some h)
  StatusRule number root status (eip658 success) =
      (byzantium_block ≤ number) × (map_some (λ v. v.nat) status ≡ some (if success then 1 else 0))

  post_byzantium-ok :
      (status : Option Nat256) (s : Eip658Value A)
      → post_byzantium_status A (map_some (u256_of A) status) ≡ ok s
      → (success : Bool) × (s ≡ eip658 success)
        × (map_some (λ v. v.nat) status ≡ some (if success then 1 else 0))
  unfolding post_byzantium_status
  post_byzantium-ok none s h = cc h
  post_byzantium-ok (some v) s h = elim (Bool-cases (A.uint.value (u256_of A v) == 0)) [
    | inl e ↦ (false, ground (arith, e, h), ground (arith, e, u256_of_value A v))
    | inr e ↦ (true, ground (arith, e, h), ground (arith, e, h, u256_of_value A v))
  ]

  status-ok :
      (number : Nat256) (root : Option Hex32) (status : Option Nat256) (s : Eip658Value A)
      → validate_receipt_status A number root status ≡ ok s
      → StatusRule number.nat root status s
  unfolding validate_receipt_status pre_byzantium_status
  status-ok number root status s h = elim (Bool-cases (ltb number.nat byzantium_block)) [
    | inl e ↦ before root (ground (arith, e)) (rw e at h)
    | inr e ↦
        let p = post_byzantium-ok status s (rw e at h) in
        subst (StatusRule number.nat root status) (sym p.1) (ground (arith, e), p.2)
  ]
    where
      before :
          (r : Option Hex32)
          → number.nat < byzantium_block
          → pre_byzantium_status A r ≡ ok s
          → StatusRule number.nat r status s
      before none lt k = cc k
      before (some r) lt k = subst (StatusRule number.nat (some r) status) (ok-inj k) (lt, refl)

  status-shown :
      (number : Nat256) (root : Option Hex32) (status : Option Nat256) (s : Eip658Value A)
      → StatusRule number.nat root status s
      → validate_receipt_status A number root status ≡ ok s
  unfolding validate_receipt_status pre_byzantium_status post_byzantium_status
  status-shown number none status (post_state h) r = cc (r.1)
  status-shown number (some root) status (post_state h) r = ground (arith, r.0, r.1)
  status-shown number root none (eip658 success) r = cc (r.1)
  status-shown number root (some v) (eip658 true) r = ground (arith, r.0, r.1, u256_of_value A v)
  status-shown number root (some v) (eip658 false) r = ground (arith, r.0, r.1, u256_of_value A v)

  -- The status of a receipt is read exactly as the upgrades say: before the block of the Byzantium
  -- upgrade it is the root, which must be there, and since then it is a success or a failure, for a
  -- status of 1 or 0; every other receipt is refused.
  pub validate_receipt_status_iff :
      (number : Nat256) (root : Option Hex32) (status : Option Nat256) (s : Eip658Value A)
      → (validate_receipt_status A number root status ≡ ok s) ↔ StatusRule number.nat root status s
  validate_receipt_status_iff number root status s =
      (status-ok number root status s, status-shown number root status s)
