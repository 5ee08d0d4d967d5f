-- ===== src/Metrics/Decimal.antt =====
-- Different numbers have different decimal digits (`u32::to_string` in `src/types/mod.rs`).
use evm_rpc_canister.Prelude.{
  ℕ, zero, suc, ◌+◌, ◌*◌, ◌/◌, ◌%◌, ◌<◌, ◌≡◌, ◌∙◌, ap, sym, [], ◌∷◌, ltb, Text, show, Bool-cases,
  inl, inr, arith, decimal, digit, ◌-◌,
}

-- The number that digits are
abbrev read_from : ℕ → Text → ℕ
read_from acc [] = acc
read_from acc (c ∷ s) = read_from (acc * 10 + (c - 48)) s

read_from-decimal :
    (fuel n : ℕ) (acc : Text) → n < fuel → read_from 0 (decimal fuel n acc) ≡ read_from n acc
unfolding decimal digit
read_from-decimal zero n acc h = absurd (omega (arith, h))
read_from-decimal (suc fuel) n acc h = elim (Bool-cases (ltb n 10)) [
  | inl e ↦
      let whole : 0 + (48 + n % 10 - 48) ≡ n = ground (arith, e) in
      rw e (ap (λ m. read_from m acc) whole)
  | inr e ↦
      let smaller : n / 10 < fuel = ground (arith, e, h) in
      let whole : n / 10 * 10 + (48 + n % 10 - 48) ≡ n = omega arith in
      rw e
        (read_from-decimal fuel (n / 10) (digit n ∷ acc) smaller ∙ ap (λ m. read_from m acc) whole)
]

read_from-show : (n : ℕ) → read_from 0 (show n) ≡ n
unfolding show
read_from-show n = read_from-decimal (suc n) n [] (omega arith)

pub show-inj : (m n : ℕ) → show m ≡ show n → m ≡ n
show-inj m n e = sym (read_from-show m) ∙ (ap (read_from 0) e ∙ read_from-show n)
