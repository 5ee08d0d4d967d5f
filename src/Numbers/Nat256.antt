-- ===== src/Numbers/Nat256.antt =====
-- `Nat256` of `evm_rpc_types/src/lib.rs`.
use evm_rpc_canister.Prelude.{
  ℕ, ◌-◌, ◌^◌, ◌≤◌, ◌<◌, ◌≡◌, ◌⊎◌, refl, true, false, ltb, leb, ◌==◌, List, ◌++◌, length,
  length-append, Text, text, Result, ok, err, Bool-cases, inl, inr, if◌then◌else◌, arith, sym,
  subst, ap, ◌∙◌,
}
use evm_rpc_canister.Prelude.Exec.{returned, returned-eq, Exec, returns, traps, ◌>>=◌, has_returned}
use evm_rpc_canister.Types.Error.{RpcError, validation_error, ValidationError}
use evm_rpc_canister.Numbers.{U8, Array, Array-eq, BigUint, be_value, u256_bound, zeros}
use evm_rpc_canister.Numbers.Positional.{length-zeros, be_value-zeros, be_value-fits, be_value-inj}
use mathlib.Core.HLevel.{is_prop→PathP}
use mathlib.Core.Bool.{Bool-set}

-- A number that fits in 256 bits: the field is private, and all constructors check it.
pub record Nat256 : Type 0 where
  pub nat : ℕ
  pub fits : ltb nat u256_bound ≡ true

pub Nat256-eq : {a b : Nat256} → a.nat ≡ b.nat → a ≡ b
Nat256-eq {a} {b} e = λ i. record {
  nat = e i;
  fits =
      is_prop→PathP (λ j. ltb (e j) u256_bound ≡ true) (λ j. Bool-set (ltb (e j) u256_bound) true)
        a.fits b.fits i;
}

pub fits_of : (n : ℕ) → n < 2 ^ 256 → ltb n u256_bound ≡ true
fits_of n h = ground (arith, h)

pub nat-below : (v : Nat256) → v.nat < 2 ^ 256
nat-below v = ground (arith, v.fits)

-- `Nat256::ZERO`
unfoldable pub nat256_zero : Nat256
nat256_zero = record { nat = 0; fits = refl }

-- `TryFrom<Nat256> for u64`; `overflow` is the text of the library's error.
unfoldable pub nat256_to_u64 : Text → Nat256 → Result ℕ RpcError
nat256_to_u64 overflow v =
    if ltb v.nat (2 ^ 64)
    then ok v.nat
    else err (validation_error (ValidationError.custom overflow))

padded_size :
    (bs : List U8)
    → leb (length bs) 32 ≡ true
    → (length (zeros (32 - length bs) ++ bs) == 32) ≡ true
padded_size bs h =
    ground (arith, length-append (zeros (32 - length bs)) bs, length-zeros (32 - length bs))

-- The bytes at the end of an array of zeros
pub padded : (bs : List U8) → leb (length bs) 32 ≡ true → Array 32
padded bs h = record { elements = zeros (32 - length bs) ++ bs; size = padded_size bs h }

pub padded_value :
    (bs : List U8) (h : leb (length bs) 32 ≡ true) → be_value (padded bs h).elements ≡ be_value bs
unfolding padded
padded_value bs h = be_value-zeros (32 - length bs) bs

module _ (B : BigUint) where
  pub few_bytes : (n : ℕ) → leb (length (B.to_bytes_le n)) 32 ≡ true → ltb n u256_bound ≡ true
  few_bytes n h =
      let short : length (B.to_bytes_be n) ≤ 32 = ground (arith, h, B.to_bytes_le-length n) in
      let below = be_value-fits (B.to_bytes_be n) short in
      fits_of n (subst (λ m. m < 2 ^ 256) (B.to_bytes_be-value n) below)

  unfoldable pub checked_nat256 :
      (n : ℕ)
      → (leb (length (B.to_bytes_le n)) 32 ≡ true) ⊎ (leb (length (B.to_bytes_le n)) 32 ≡ false)
      → Result Nat256 Text
  unfolding text
  checked_nat256 n (inl h) = ok (record { nat = n; fits = few_bytes n h })
  checked_nat256 n (inr h) = err (text "Nat does not fit in a U256")

  -- `TryFrom<Nat> for Nat256`
  unfoldable pub nat256_try_from : ℕ → Result Nat256 Text
  unfolding checked_nat256
  nat256_try_from n = checked_nat256 n (Bool-cases (leb (length (B.to_bytes_le n)) 32))

  unfoldable pub expect_nat256 : Text → Result Nat256 Text → Exec Nat256
  expect_nat256 message (ok v) = returns v
  expect_nat256 message (err e) = traps message

  -- `impl_from_unchecked`: the conversion of a machine word
  unfoldable pub nat256_from_word : ℕ → Exec Nat256
  unfolding expect_nat256 text nat256_try_from
  nat256_from_word n =
      expect_nat256 (text "called `Result::unwrap()` on an `Err` value") (nat256_try_from n)

  unfoldable pub copied :
      (bs : List U8) → (leb (length bs) 32 ≡ true) ⊎ (leb (length bs) 32 ≡ false) → Exec (Array 32)
  unfolding text
  copied bs (inl h) = returns (padded bs h)
  copied bs (inr h) = traps (text "BUG: Nat does not fit in a U256: ")

  -- `Nat256::into_be_bytes`
  unfoldable pub into_be_bytes : Nat256 → Exec (Array 32)
  unfolding copied
  into_be_bytes v =
      let value_bytes = B.to_bytes_be v.nat in
      copied value_bytes (Bool-cases (leb (length value_bytes) 32))

  -- `Nat256::from_be_bytes`
  unfoldable pub from_be_bytes : Array 32 → Exec Nat256
  unfolding expect_nat256 text nat256_try_from
  from_be_bytes value =
      expect_nat256 (text "BUG: Nat should fit in a U256")
        (nat256_try_from (B.from_bytes_be value.elements))

  bytes_of_fitting : (n : ℕ) → n < 2 ^ 256 → length (B.to_bytes_be n) ≤ 32
  bytes_of_fitting n h = B.to_bytes_be-fewest n 31 h

  checked_nat256-fitting :
      (v : Nat256)
      (c : (leb (length (B.to_bytes_le v.nat)) 32 ≡ true)
        ⊎ (leb (length (B.to_bytes_le v.nat)) 32 ≡ false))
      → checked_nat256 v.nat c ≡ ok v
  unfolding checked_nat256
  checked_nat256-fitting v (inl h) = ap ok (Nat256-eq refl)
  checked_nat256-fitting v (inr h) =
      let short = bytes_of_fitting v.nat (nat-below v) in
      absurd (ground (arith, h, short, B.to_bytes_le-length v.nat))

  pub nat256_try_from-nat : (v : Nat256) → nat256_try_from v.nat ≡ ok v
  unfolding nat256_try_from
  nat256_try_from-nat v = checked_nat256-fitting v _

  checked_nat256-rejects :
      (n : ℕ)
      (c : (leb (length (B.to_bytes_le n)) 32 ≡ true) ⊎ (leb (length (B.to_bytes_le n)) 32 ≡ false))
      → 2 ^ 256 ≤ n
      → checked_nat256 n c ≡ err (text "Nat does not fit in a U256")
  unfolding checked_nat256
  checked_nat256-rejects n (inl h) k = absurd (ground (arith, k, few_bytes n h))
  checked_nat256-rejects n (inr h) k = refl

  -- A natural number becomes a `Nat256` of the same number if it is below 2 ^ 256, and every larger
  -- number is refused.
  pub nat256_try_from-cases :
      (n : ℕ)
      → ((n < 2 ^ 256) → (v : Nat256) × (nat256_try_from n ≡ ok v) × (v.nat ≡ n))
        × ((2 ^ 256 ≤ n) → nat256_try_from n ≡ err (text "Nat does not fit in a U256"))
  unfolding nat256_try_from
  nat256_try_from-cases n = (
    λ h.
        let v : Nat256 = record { nat = n; fits = fits_of n h } in (v, nat256_try_from-nat v, refl),
    checked_nat256-rejects n _,
  )

  copied-short :
      (bs : List U8) (c : (leb (length bs) 32 ≡ true) ⊎ (leb (length bs) 32 ≡ false))
      → length bs ≤ 32
      → (a : Array 32) × (copied bs c ≡ returns a) × (be_value a.elements ≡ be_value bs)
  unfolding copied
  copied-short bs (inl h) k = (padded bs h, refl, padded_value bs h)
  copied-short bs (inr h) k = absurd (ground (arith, h, k))

  -- The 32 bytes of a number are always written, and are those of the number.
  pub into_be_bytes-value :
      (v : Nat256) → (a : Array 32) × (into_be_bytes v ≡ returns a) × (be_value a.elements ≡ v.nat)
  unfolding into_be_bytes
  into_be_bytes-value v =
      let c = copied-short (B.to_bytes_be v.nat) _ (bytes_of_fitting v.nat (nat-below v)) in
      (c.0, c.1, c.2 ∙ B.to_bytes_be-value v.nat)

  Array-size : (a : Array 32) → length a.elements ≡ 32
  Array-size a = ground (arith, a.size)

  -- Reading 32 bytes never panics, and gives the number that they are.
  pub from_be_bytes_value :
      (a : Array 32) → (v : Nat256) × (from_be_bytes a ≡ returns v) × (v.nat ≡ be_value a.elements)
  unfolding from_be_bytes expect_nat256
  from_be_bytes_value a =
      let n = B.from_bytes_be a.elements in
      let e : n ≡ be_value a.elements = B.from_bytes_be_value a.elements in
      let below : be_value a.elements < 2 ^ 256 =
        be_value-fits a.elements (omega (arith, Array-size a)) in
      let v : Nat256 = record { nat = n; fits = fits_of n (omega (arith, below, e)) } in
      (v, ap (expect_nat256 (text "BUG: Nat should fit in a U256")) (nat256_try_from-nat v), e)

  -- A number of at most 256 bits, written as 32 bytes and read again, is the same number, and any 32
  -- bytes, read as a number and written again, are the same bytes; no step panics.
  pub from_be_bytes-into_be_bytes :
      (v : Nat256) (a : Array 32)
      → ((into_be_bytes v >>= from_be_bytes) ≡ returns v)
        × ((from_be_bytes a >>= into_be_bytes) ≡ returns a)
  from_be_bytes-into_be_bytes v a =
      let w = into_be_bytes-value v in
      let r = from_be_bytes_value w.0 in
      let s = from_be_bytes_value a in
      let t = into_be_bytes-value s.0 in
      let same_number : r.0 ≡ v = Nat256-eq (r.2 ∙ w.2) in
      let same_bytes : t.0 ≡ a =
        Array-eq (
          be_value-inj t.0.elements a.elements (Array-size t.0 ∙ sym (Array-size a)) (t.2 ∙ s.2)) in
      (rw w.1 (r.1 ∙ ap returns same_number), rw s.1 (t.1 ∙ ap returns same_bytes))

  pub nat256_from_word-returns :
      (n : ℕ) → n < 2 ^ 128 → (v : Nat256) × (nat256_from_word n ≡ returns v) × (v.nat ≡ n)
  unfolding nat256_from_word expect_nat256
  nat256_from_word-returns n h =
      let v : Nat256 = record { nat = n; fits = fits_of n (omega (arith, h)) } in
      (v, ap (expect_nat256 _) (nat256_try_from-nat v), refl)

  abbrev pub unwraps : (n : ℕ) → n < 2 ^ 128 → has_returned (nat256_from_word n) ≡ true
  unwraps n h = ap has_returned (nat256_from_word-returns n h).1

  -- The conversion of a machine word as a function, as it never panics
  unfoldable pub nat256_word : (n : ℕ) → n < 2 ^ 128 → Nat256
  unfolding nat256_from_word returned
  nat256_word n h = returned (nat256_from_word n) (unwraps n h)

  pub nat256_word_value : (n : ℕ) (h : n < 2 ^ 128) → (nat256_word n h).nat ≡ n
  unfolding nat256_word
  nat256_word_value n h =
      let w = nat256_from_word-returns n h in
      let same : nat256_word n h ≡ w.0 = cc (w.1, returned-eq (nat256_from_word n) (unwraps n h)) in
      ap (λ v. v.nat) same ∙ w.2
