-- ===== src/Tests/Strings.antt =====
-- Messages and bodies of replies, read and written by small functions.
use evm_rpc_canister.Prelude.{
  ℕ, zero, suc, starts_with, ◌+◌, ◌<◌, ◌&&◌, ◌==◌, leb, false, [], ◌∷◌, map, Option, none, some,
  Text, text, Result, ok, err, All, ◌≡◌, ◌⊎◌, refl, arith, if◌then◌else◌, ap₂,
}
use evm_rpc_canister.SendRaw.{
  Lowercase, IsUpper, Json, ReplyError, code_32000, SendRawTransactionError, try_parse, sanitize,
  nethermind, same_code, SendRawTransactionResult,
}
use evm_rpc_canister.SendRaw.Parsers.{rules, apply_rule, nethermind-none, try_parse-rules}
use evm_rpc_canister.SendRaw.Sanitize.{sanitize-agrees}

pub lower : ℕ → ℕ
lower c = if leb 65 c && leb c 90 then c + 32 else c

pub lower-absent : (s : Text) (c : ℕ) → IsUpper c → All (λ d. (d == c) ≡ false) (map lower s)
unfolding lower
lower-absent [] c u = tt
lower-absent (x ∷ s) c u = (ground arith, lower-absent s c u)

pub lower-kept : (s : Text) → All (λ c. (c < 65) ⊎ ((90 < c) × (c < 128))) s → map lower s ≡ s
unfolding lower
lower-kept [] h = refl
lower-kept (x ∷ s) h = ap₂ (λ y ys. y ∷ ys) (ground arith) (lower-kept s h.1)

abbrev pub ascii_lowercase : Lowercase
ascii_lowercase = record {
  to_lowercase = map lower;
  to_lowercase-lower = lower-absent;
  to_lowercase-kept = lower-kept;
}

-- A body holds the id, then 0 and the hash, or 1 and the message of an error with code -32000.
pub read_reply : Text → Option (ℕ × Result ℕ (ReplyError Text))
read_reply (id ∷ zero ∷ hash ∷ []) = some (id, ok hash)
read_reply (id ∷ suc kind ∷ message) =
    some (id, err (record { code = code_32000; message = message; data_value = none }))
read_reply _ = none

pub write_result : Result SendRawTransactionResult (ReplyError Text) → Text
write_result (ok r) = text "ok"
write_result (err e) = 1 ∷ e.message

abbrev pub short_replies : Json
short_replies = record {
  ReplyId = ℕ;
  Hash = ℕ;
  Data = Text;
  from_slice = read_reply;
  to_string = λ reply. reply.0 ∷ write_result reply.1;
}

abbrev already : Text
already = text "Already Known"

nethermind-none_example : nethermind ascii_lowercase code_32000 already ≡ none
nethermind-none_example = nethermind-none ascii_lowercase code_32000 already

try_parse-rules_example :
    try_parse ascii_lowercase code_32000 (text "err: Already Known")
    ≡ some SendRawTransactionError.already_known
unfolding rules apply_rule text same_code lower starts_with
try_parse-rules_example = try_parse-rules ascii_lowercase code_32000 (text "err: Already Known")

abbrev accepted_body : Text
accepted_body = 7 ∷ 0 ∷ 42 ∷ []

abbrev known_body : Text
known_body = 7 ∷ 1 ∷ already

sanitize-agrees_example :
    (sanitize ascii_lowercase short_replies accepted_body
      ≡ sanitize ascii_lowercase short_replies known_body)
    × (sanitize ascii_lowercase short_replies accepted_body ≡ 7 ∷ text "ok")
unfolding read_reply write_result rules apply_rule text same_code lower starts_with
sanitize-agrees_example =
    sanitize-agrees ascii_lowercase short_replies 7 (ok 42)
      (err (record { code = code_32000; message = already; data_value = none })) accepted_body
      known_body refl refl tt (try_parse-rules ascii_lowercase code_32000 already)
