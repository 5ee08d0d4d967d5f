-- ===== src/SendRaw.antt =====
-- `src/rpc_client/eth_rpc_error/mod.rs`: the answers of Ethereum clients to
-- `eth_sendRawTransaction`, and how they are made equal for consensus.
use evm_rpc_canister.Prelude.{
  ℕ, Bool, false, ◌==◌, ◌&&◌, List, [], ◌∷◌, Option, none, some, if◌then◌else◌, Text, text,
  contains, find_map, Result, ok, err, All, ◌≡◌, ◌≤◌, ◌<◌, ◌⊎◌,
}
use evm_rpc_canister.Types.Error.{ℤ, pos, negsuc}
pub mod Parsers
pub mod Sanitize

pub data SendRawTransactionError : Type 0 where
  already_known insufficient_funds nonce_too_low nonce_too_high : SendRawTransactionError

-- `SendRawTransactionResult` of `src/rpc_client/json/responses.rs`, whose `Ok` is `sent_ok`
pub data SendRawTransactionResult : Type 0 where
  sent_ok insufficient_funds nonce_too_low nonce_too_high : SendRawTransactionResult

unfoldable pub same_code : ℤ → ℤ → Bool
same_code (pos m) (pos n) = m == n
same_code (negsuc m) (negsuc n) = m == n
same_code _ _ = false

-- `A` to `Z`
abbrev pub IsUpper : ℕ → Type 0
IsUpper c = (65 ≤ c) × (c ≤ 90)

-- `str::to_lowercase` of the Rust library, by what its documentation says of ASCII characters.
pub record Lowercase : Type 0 where
  pub to_lowercase : Text → Text
  pub to_lowercase-lower :
      (s : Text) (c : ℕ) → IsUpper c → All (λ d. (d == c) ≡ false) (to_lowercase s)
  pub to_lowercase-kept :
      (s : Text) → All (λ c. (c < 65) ⊎ ((90 < c) × (c < 128))) s → to_lowercase s ≡ s

-- -32000, -32001, -32006 and -32010
abbrev pub code_32000 : ℤ
code_32000 = negsuc 31999

abbrev pub code_32001 : ℤ
code_32001 = negsuc 32000

abbrev pub code_32006 : ℤ
code_32006 = negsuc 32005

abbrev pub code_32010 : ℤ
code_32010 = negsuc 32009

-- An arm `(literal, msg) if msg.contains(phrase)` of a match on the code and the message.
unfoldable pub arm : ℤ → Text → ℤ → Text → Bool
unfolding same_code contains
arm code msg literal phrase = same_code code literal && contains msg phrase

module _ (L : Lowercase) where
  open L use {to_lowercase}

  unfoldable pub go_ethereum : ℤ → Text → Option SendRawTransactionError
  unfolding arm text
  go_ethereum code message =
      let msg = to_lowercase message in
      if arm code msg code_32000 (text "already known")
      then some already_known
      else if arm code msg code_32000 (text "insufficient funds")
      then some SendRawTransactionError.insufficient_funds
      else if arm code msg code_32000 (text "nonce too low")
      then some SendRawTransactionError.nonce_too_low
      else if arm code msg code_32000 (text "nonce too high")
      then some SendRawTransactionError.nonce_too_high
      else none

  unfoldable pub nethermind : ℤ → Text → Option SendRawTransactionError
  unfolding arm text
  nethermind code message =
      let msg = to_lowercase message in
      if arm code msg code_32010 (text "AlreadyKnown")
      then some already_known
      else if arm code msg code_32010 (text "InsufficientFunds")
      then some SendRawTransactionError.insufficient_funds
      else if arm code msg code_32010 (text "OldNonce")
      then some SendRawTransactionError.nonce_too_low
      else if arm code msg code_32010 (text "NonceGap")
      then some SendRawTransactionError.nonce_too_high
      else none

  unfoldable pub erigon : ℤ → Text → Option SendRawTransactionError
  unfolding arm text
  erigon code message =
      let msg = to_lowercase message in
      if arm code msg code_32000 (text "already known")
      then some already_known
      else if arm code msg code_32000 (text "insufficient funds")
      then some SendRawTransactionError.insufficient_funds
      else if arm code msg code_32000 (text "nonce too low")
      then some SendRawTransactionError.nonce_too_low
      else none

  unfoldable pub besu : ℤ → Text → Option SendRawTransactionError
  unfolding arm text
  besu code message =
      let msg = to_lowercase message in
      if arm code msg code_32000 (text "known transaction")
      then some already_known
      else if arm code msg code_32000 (text "out of gas")
      then some SendRawTransactionError.insufficient_funds
      else if arm code msg code_32001 (text "nonce too low")
      then some SendRawTransactionError.nonce_too_low
      else if arm code msg code_32006 (text "nonce too high")
      then some SendRawTransactionError.nonce_too_high
      else none

  unfoldable pub parsers : List (ℤ → Text → Option SendRawTransactionError)
  unfolding go_ethereum nethermind erigon besu
  parsers = go_ethereum ∷ nethermind ∷ erigon ∷ besu ∷ []

  -- `Parser::try_parse_send_raw_transaction_error`
  unfoldable pub try_parse : ℤ → Text → Option SendRawTransactionError
  unfolding parsers
  try_parse code message = find_map (λ parser. parser code message) parsers

-- `JsonRpcError` of canhttp: its code, its message and its data
pub record ReplyError (D : Type 0) : Type 0 where
  pub code : ℤ
  pub message : Text
  pub data_value : Option D

-- JSON-RPC replies with their ids, which canhttp and serde_json read and write.
pub record Json : Type 1 where
  pub ReplyId : Type 0
  pub Hash : Type 0
  pub Data : Type 0
  pub from_slice : Text → Option (ReplyId × Result Hash (ReplyError Data))
  pub to_string : ReplyId × Result SendRawTransactionResult (ReplyError Data) → Text

unfoldable pub sanitized_error :
    {D : Type 0}
    → Option SendRawTransactionError
    → ReplyError D
    → Result SendRawTransactionResult (ReplyError D)
sanitized_error (some already_known) e = ok sent_ok
sanitized_error (some SendRawTransactionError.insufficient_funds) e =
    ok SendRawTransactionResult.insufficient_funds
sanitized_error (some SendRawTransactionError.nonce_too_low) e =
    ok SendRawTransactionResult.nonce_too_low
sanitized_error (some SendRawTransactionError.nonce_too_high) e =
    ok SendRawTransactionResult.nonce_too_high
sanitized_error none e = err e

module _ (L : Lowercase) (J : Json) where
  open J use {ReplyId, Hash, Data, from_slice, to_string}

  unfoldable pub sanitized_result :
      Result Hash (ReplyError Data) → Result SendRawTransactionResult (ReplyError Data)
  unfolding sanitized_error try_parse
  sanitized_result (ok hash) = ok sent_ok
  sanitized_result (err e) = sanitized_error (try_parse L e.code e.message) e

  unfoldable pub sanitized_reply : Text → Option (ReplyId × Result Hash (ReplyError Data)) → Text
  unfolding sanitized_result
  sanitized_reply body none = body
  sanitized_reply body (some reply) = to_string (reply.0, sanitized_result reply.1)

  -- `sanitize_send_raw_transaction_result`: the body that takes the place of the given one.
  unfoldable pub sanitize : Text → Text
  unfolding sanitized_reply
  sanitize body = sanitized_reply body (from_slice body)
