-- ===== src/Numbers/Amount.antt =====
-- `Amount` of `src/rpc_client/amount/mod.rs`: a 256-bit number. The type of its unit is a mark that
-- no operation reads, and is left out.
use evm_rpc_canister.Prelude.{◌≡◌, true, ap, ◌∙◌}
use evm_rpc_canister.Prelude.Exec.{returned, returned-eq, Exec, returns, ◌>>=◌, has_returned}
use evm_rpc_canister.Numbers.{Array, BigUint, Ethnum}
use evm_rpc_canister.Numbers.Nat256.{
  Nat256, Nat256-eq, into_be_bytes, into_be_bytes-value, from_be_bytes, from_be_bytes_value,
}

pub record Amount (E : Ethnum) : Type 0 where
  pub inner : E.U256

module _ (E : Ethnum) where
  pub Amount-eq : {a b : Amount E} → a.inner ≡ b.inner → a ≡ b
  Amount-eq e = λ i. record { inner = e i }

  -- `Amount::from_be_bytes` and `Amount::to_be_bytes`
  unfoldable pub amount_from_be_bytes : Array 32 → Amount E
  amount_from_be_bytes bytes = record { inner = E.from_be_bytes bytes }

  unfoldable pub amount_to_be_bytes : Amount E → Array 32
  amount_to_be_bytes a = E.to_be_bytes a.inner

module _ (B : BigUint) (E : Ethnum) where
  -- `From<Nat256> for Amount<Unit>`, which might panic in `into_be_bytes`
  unfoldable pub amount_from_nat256 : Nat256 → Exec (Amount E)
  unfolding amount_from_be_bytes into_be_bytes
  amount_from_nat256 value =
      into_be_bytes B value >>= λ bytes. returns (amount_from_be_bytes E bytes)

  -- `From<Amount<Unit>> for Nat256`, which might panic in `from_be_bytes`
  unfoldable pub nat256_from_amount : Amount E → Exec Nat256
  unfolding amount_to_be_bytes from_be_bytes
  nat256_from_amount value = from_be_bytes B (amount_to_be_bytes E value)

  -- A `Nat256` always becomes an amount, and that of the same number.
  pub amount_from_nat256_value :
      (v : Nat256) → (a : Amount E) × (amount_from_nat256 v ≡ returns a) × (E.value a.inner ≡ v.nat)
  unfolding amount_from_nat256 amount_from_be_bytes
  amount_from_nat256_value v =
      let w = into_be_bytes-value B v in
      (
        amount_from_be_bytes E w.0,
        ap (λ m. m >>= λ bytes. returns (amount_from_be_bytes E bytes)) w.1,
        E.from_be_bytes_value w.0 ∙ w.2,
      )

  -- An amount always becomes a `Nat256`, and that of the same number.
  pub nat256_from_amount_value :
      (a : Amount E) → (v : Nat256) × (nat256_from_amount a ≡ returns v) × (v.nat ≡ E.value a.inner)
  unfolding nat256_from_amount amount_to_be_bytes
  nat256_from_amount_value a =
      let r = from_be_bytes_value B (amount_to_be_bytes E a) in
      (r.0, r.1, r.2 ∙ E.to_be_bytes_value a.inner)

  pub amount_from_nat256-returns : (v : Nat256) → has_returned (amount_from_nat256 v) ≡ true
  amount_from_nat256-returns v = ap has_returned (amount_from_nat256_value v).1

  pub nat256_from_amount-returns : (a : Amount E) → has_returned (nat256_from_amount a) ≡ true
  nat256_from_amount-returns a = ap has_returned (nat256_from_amount_value a).1

  -- The conversions as functions, as they never panic
  unfoldable pub amount_of : Nat256 → Amount E
  unfolding amount_from_nat256 returned
  amount_of v = returned (amount_from_nat256 v) (amount_from_nat256-returns v)

  unfoldable pub nat256_of : Amount E → Nat256
  unfolding nat256_from_amount returned
  nat256_of a = returned (nat256_from_amount a) (nat256_from_amount-returns a)

  pub amount_of_value : (v : Nat256) → E.value (amount_of v).inner ≡ v.nat
  unfolding amount_of
  amount_of_value v =
      let w = amount_from_nat256_value v in
      let same : amount_of v ≡ w.0 =
        cc (w.1, returned-eq (amount_from_nat256 v) (amount_from_nat256-returns v)) in
      ap (λ a. E.value a.inner) same ∙ w.2

  pub nat256_of_value : (a : Amount E) → (nat256_of a).nat ≡ E.value a.inner
  unfolding nat256_of
  nat256_of_value a =
      let w = nat256_from_amount_value a in
      let same : nat256_of a ≡ w.0 =
        cc (w.1, returned-eq (nat256_from_amount a) (nat256_from_amount-returns a)) in
      ap (λ v. v.nat) same ∙ w.2

  pub amount_of-nat256_of : (a : Amount E) → amount_of (nat256_of a) ≡ a
  amount_of-nat256_of a =
      Amount-eq E (E.value-inj _ _ (amount_of_value (nat256_of a) ∙ nat256_of_value a))

  pub nat256_of-amount_of : (v : Nat256) → nat256_of (amount_of v) ≡ v
  nat256_of-amount_of v = Nat256-eq (nat256_of_value (amount_of v) ∙ amount_of_value v)

  -- Converting a `Nat256` to an amount and back gives the same number, and so does converting an
  -- amount to a `Nat256` and back: neither direction panics.
  pub amount-nat256 :
      (v : Nat256) (a : Amount E)
      → ((amount_from_nat256 v >>= nat256_from_amount) ≡ returns v)
        × ((nat256_from_amount a >>= amount_from_nat256) ≡ returns a)
  amount-nat256 v a =
      let w = amount_from_nat256_value v in
      let r = nat256_from_amount_value w.0 in
      let s = nat256_from_amount_value a in
      let t = amount_from_nat256_value s.0 in
      let same_number : r.0 ≡ v = Nat256-eq (r.2 ∙ w.2) in
      let same_amount : t.0 ≡ a = Amount-eq E (E.value-inj _ _ (t.2 ∙ s.2)) in
      (rw w.1 (r.1 ∙ ap returns same_number), rw s.1 (t.1 ∙ ap returns same_amount))
