-- ===== src/SendRaw/Parsers.antt =====
-- The parsers of `src/rpc_client/eth_rpc_error/mod.rs` and the errors that they find.
use evm_rpc_canister.Prelude.{
  ℕ, true, false, ◌==◌, ◌&&◌, List, [], ◌∷◌, Option, none, some, Text, text, contains, starts_with,
  ◌≤◌, find_map, if◌then◌else◌, All, ◌≡◌, refl, arith, Bool-cases, inl, inr, contains_byte,
}
use evm_rpc_canister.Types.Error.{ℤ}
use evm_rpc_canister.SendRaw.{
  Lowercase, SendRawTransactionError, arm, same_code, go_ethereum, nethermind, erigon, besu,
  parsers, try_parse, code_32000, code_32001, code_32006,
}

-- A byte that a text lacks is in no part of the text.
starts_with-absent :
    (c : ℕ) (s p : Text)
    → All (λ d. (d == c) ≡ false) s
    → contains_byte p c ≡ true
    → starts_with s p ≡ false
unfolding starts_with contains_byte
starts_with-absent c s [] h b = cc
starts_with-absent c [] (x ∷ p) h b = refl
starts_with-absent c (d ∷ s) (x ∷ p) h b = elim (Bool-cases (x == c)) [
  | inl e ↦ ground (arith, h.0)
  | inr e ↦ ground (arith, starts_with-absent c s p h.1)
]

contains-absent :
    (c : ℕ) (s p : Text)
    → All (λ d. (d == c) ≡ false) s
    → contains_byte p c ≡ true
    → contains s p ≡ false
unfolding contains
contains-absent c [] p h b = starts_with-absent c [] p h b
contains-absent c (d ∷ s) p h b =
    ground (arith, starts_with-absent c (d ∷ s) p h b, contains-absent c s p h.1 b)

-- A rule: the error, for a code and a phrase of the message in lower case.
abbrev pub Rule : Type 0
Rule = ℤ × (Text × SendRawTransactionError)

-- The rules that can apply, in the order in which they are tried.
unfoldable pub rules : List Rule
unfolding text
rules =
    (code_32000, (text "already known", SendRawTransactionError.already_known))
    ∷ (code_32000, (text "insufficient funds", SendRawTransactionError.insufficient_funds))
    ∷ (code_32000, (text "nonce too low", SendRawTransactionError.nonce_too_low))
    ∷ (code_32000, (text "nonce too high", SendRawTransactionError.nonce_too_high))
    ∷ (code_32000, (text "known transaction", SendRawTransactionError.already_known))
    ∷ (code_32000, (text "out of gas", SendRawTransactionError.insufficient_funds))
    ∷ (code_32001, (text "nonce too low", SendRawTransactionError.nonce_too_low))
    ∷ (code_32006, (text "nonce too high", SendRawTransactionError.nonce_too_high))
    ∷ []

unfoldable pub apply_rule : ℤ → Text → Rule → Option SendRawTransactionError
unfolding same_code contains
apply_rule code msg rule =
    if same_code code rule.0 && contains msg rule.1.0 then some rule.1.1 else none

module _ (L : Lowercase) where
  open L use {to_lowercase, to_lowercase-lower}

  upper_phrase :
      (c : ℕ) (message p : Text)
      → (65 ≤ c) × (c ≤ 90)
      → contains_byte p c ≡ true
      → contains (to_lowercase message) p ≡ false
  upper_phrase c message p u b = contains-absent c _ p (to_lowercase-lower message c u) b

  -- The parser for Nethermind recognises no message at all, whatever the code is: it looks for
  -- phrases with capital letters in a message that was put in lower case.
  pub nethermind-none : (code : ℤ) (message : Text) → nethermind L code message ≡ none
  unfolding nethermind arm text contains_byte
  nethermind-none code message = ground (
    arith,
    upper_phrase 65 message (text "AlreadyKnown") (omega arith, omega arith) refl,
    upper_phrase 73 message (text "InsufficientFunds") (omega arith, omega arith) refl,
    upper_phrase 79 message (text "OldNonce") (omega arith, omega arith) refl,
    upper_phrase 78 message (text "NonceGap") (omega arith, omega arith) refl,
  )

  -- For every code and message the error that is found is that of the first rule, in the order of
  -- `rules`, whose code is the code and whose phrase is a part of the message in lower case, and
  -- there is none if no rule applies. These are the rules for Geth and Besu; those for Nethermind
  -- and Erigon find nothing more.
  pub try_parse-rules :
      (code : ℤ) (message : Text)
      → try_parse L code message ≡ find_map (apply_rule code (to_lowercase message)) rules
  unfolding try_parse parsers go_ethereum erigon besu arm rules apply_rule
  try_parse-rules code message = ground (arith, nethermind-none code message)
