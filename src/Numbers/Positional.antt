-- ===== src/Numbers/Positional.antt =====
-- The positional system of base 256 that `evm_rpc_types/src/lib.rs` writes numbers in.
use evm_rpc_canister.Prelude.{
  ℕ, zero, suc, ◌+◌, ◌-◌, ◌*◌, ◌^◌, ◌<◌, ◌≤◌, ◌≡◌, refl, sym, subst, List, [], ◌∷◌, ◌++◌, length,
  ap, arith,
}
use evm_rpc_canister.Numbers.{U8, U8-eq, value_from, be_value, zeros}

pub length-zeros : (n : ℕ) → length (zeros n) ≡ n
unfolding zeros
length-zeros zero = refl
length-zeros (suc n) = ap suc (length-zeros n)

-- Zeros in front do not change the number.
pub be_value-zeros : (n : ℕ) (bs : List U8) → be_value (zeros n ++ bs) ≡ be_value bs
unfolding zeros value_from
be_value-zeros zero bs = refl
be_value-zeros (suc n) bs = be_value-zeros n bs

-- The value of bytes after a number of at most `j` bytes is below the power of 256 for all of them.
value_from-below :
    (k j acc : ℕ) (bs : List U8) → k ≡ length bs + j → acc < 256 ^ j → value_from acc bs < 256 ^ k
unfolding value_from
value_from-below k j acc [] e h =
    let same : k ≡ j = omega (arith, e) in subst (λ i. acc < 256 ^ i) (sym same) h
value_from-below k j acc (b ∷ bs) e h =
    let byte : b.value < 256 = ground (arith, b.below) in
    value_from-below k (suc j) (acc * 256 + b.value) bs (omega (arith, e)) (omega (arith, h, byte))

pub be_value-below : (bs : List U8) → be_value bs < 256 ^ length bs
be_value-below bs = value_from-below (length bs) 0 0 bs (omega arith) (omega arith)

power_positive : (k : ℕ) → 0 < 256 ^ k
power_positive zero = omega arith
power_positive (suc k) = omega (arith, power_positive k)

-- What at most 32 bytes stand for fits in 256 bits.
pub be_value-fits : (bs : List U8) → length bs ≤ 32 → be_value bs < 2 ^ 256
be_value-fits bs h =
    let k = 32 - length bs in value_from-below 32 k 0 bs (omega (arith, h)) (power_positive k)

-- As many bytes of the same number are the same bytes.
value_from-inj :
    (acc acc' : ℕ) (bs cs : List U8)
    → length bs ≡ length cs
    → value_from acc bs ≡ value_from acc' cs
    → (acc ≡ acc') × (bs ≡ cs)
unfolding value_from
value_from-inj acc acc' [] [] h e = (e, refl)
value_from-inj acc acc' [] (c ∷ cs) h e = absurd (omega (arith, h))
value_from-inj acc acc' (b ∷ bs) [] h e = absurd (omega (arith, h))
value_from-inj acc acc' (b ∷ bs) (c ∷ cs) h e =
    let rest = value_from-inj (acc * 256 + b.value) (acc' * 256 + c.value) bs cs (omega arith) e in
    let here : (acc ≡ acc') × (b.value ≡ c.value) = ground (arith, b.below, c.below, rest.0) in
    let byte : b ≡ c = U8-eq here.1 in (here.0, cc)

pub be_value-inj : (bs cs : List U8) → length bs ≡ length cs → be_value bs ≡ be_value cs → bs ≡ cs
be_value-inj bs cs h e = (value_from-inj 0 0 bs cs h e).1
