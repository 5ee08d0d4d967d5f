-- ===== src/SendRaw/Sanitize.antt =====
-- What `sanitize_send_raw_transaction_result` does to the replies of `eth_sendRawTransaction`.
use evm_rpc_canister.Prelude.{none, some, Text, Result, ok, err, ◌≡◌, refl, arith}
use evm_rpc_canister.SendRaw.{
  Lowercase, Json, ReplyError, SendRawTransactionError, try_parse, sanitize, sanitized_reply,
  sanitized_result, sanitized_error, sent_ok,
}

module _ (L : Lowercase) (J : Json) where
  open J use {ReplyId, Hash, Data, from_slice, to_string}

  -- The reply says that the node has the transaction: it accepted it, or knew it already.
  abbrev pub WasSent : Result Hash (ReplyError Data) → Type 0
  WasSent (ok hash) = Unit
  WasSent (err e) = try_parse L e.code e.message ≡ some SendRawTransactionError.already_known

  sanitized_result-sent :
      (r : Result Hash (ReplyError Data)) → WasSent r → sanitized_result L J r ≡ ok sent_ok
  unfolding sanitized_result sanitized_error
  sanitized_result-sent (ok hash) h = refl
  sanitized_result-sent (err e) h = rw h

  -- The node that accepts a transaction and the nodes that know it already give equal bodies: two
  -- bodies that are read as replies with the same id, each of which is a success or an error that
  -- is parsed as a known transaction, are sanitized to the same body, the successful reply.
  pub sanitize-agrees :
      (id : ReplyId) (r s : Result Hash (ReplyError Data)) (body other : Text)
      → from_slice body ≡ some (id, r)
      → from_slice other ≡ some (id, s)
      → WasSent r
      → WasSent s
      → (sanitize L J body ≡ sanitize L J other) × (sanitize L J body ≡ to_string (id, ok sent_ok))
  unfolding sanitize sanitized_reply
  sanitize-agrees id r s body other p q h k = (
    ground (arith, sanitized_result-sent r h, sanitized_result-sent s k),
    ground (arith, sanitized_result-sent r h),
  )

  -- An error that no parser recognises stays in the reply with its id, code, message and data.
  pub sanitize-unknown :
      (id : ReplyId) (e : ReplyError Data) (body : Text)
      → from_slice body ≡ some (id, err e)
      → try_parse L e.code e.message ≡ none
      → sanitize L J body ≡ to_string (id, err e)
  unfolding sanitize sanitized_reply sanitized_result sanitized_error
  sanitize-unknown id e body p h = ground arith
