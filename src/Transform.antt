-- ===== src/Transform.antt =====
-- `src/rpc_client/eth_rpc/mod.rs`: what a replica makes of an HTTP response before the replicas
-- compare theirs. JSON and CBOR are read and written by serde and minicbor, and hashes are those of
-- sha2: parameters.
pub mod Replicas
use evm_rpc_canister.Ord.Instances.{nat_ord, list_ord}
use evm_rpc_canister.Ord.Sort.{sort_by}
use evm_rpc_canister.Prelude.{
  ℕ, ◌&&◌, not, ltb, leb, List, [], Option, none, some, Text, Result, ok, err, is_empty,
  if◌then◌else◌, length, ◌≡◌,
}
use evm_rpc_canister.Types.Service.{HttpHeader}
use evm_rpc_canister.SendRaw.{Lowercase, Json, sanitize}

pub data ResponseTransform : Type 0 where
  block log_entries transaction_receipt fee_history send_raw_transaction : ResponseTransform

-- `HttpResponse` and `TransformArgs` of the management canister, by the fields in use
pub record HttpResponse : Type 0 where
  pub status : ℕ
  pub headers : List HttpHeader
  pub body : Text

pub record TransformArgs : Type 0 where
  pub response : HttpResponse
  pub context : Text

-- `JsonRpcResponse<T>` as JSON
pub record Codec : Type 1 where
  pub Reply : Type 0
  pub from_slice : Text → Option Reply
  pub to_string : Reply → Text

-- `JsonRpcResponse<Vec<T>>` as JSON: an id with the items or an error, and the JSON of one item
pub record ItemCodec : Type 1 where
  pub ReplyId : Type 0
  pub Item : Type 0
  pub Error : Type 0
  pub from_slice : Text → Option (ReplyId × Result (List Item) Error)
  pub to_string : ReplyId × Result (List Item) Error → Text
  pub to_vec : Item → Text

unfoldable pub redact_response : Codec → Text → Text
redact_response C body = elim (C.from_slice body) [ none ↦ body | some r ↦ C.to_string r ]

module _ (C : ItemCodec) (sha256 : Text → Text) where
  open C use {ReplyId, Item, Error, from_slice, to_string, to_vec}

  unfoldable pub sort_by_hash : List Item → List Item
  sort_by_hash to_sort = sort_by (λ item. sha256 (to_vec item)) to_sort

  abbrev pub sorted_result : Result (List Item) Error → Result (List Item) Error
  sorted_result (ok items) = ok (sort_by_hash items)
  sorted_result (err e) = err e

  unfoldable pub redact_collection_response : Text → Text
  unfolding sort_by_hash
  redact_collection_response body = elim (from_slice body) [
    | none ↦ body
    | some r ↦ to_string (r.0, sorted_result r.1)
  ]

-- The readers and writers of the types of replies, and of transformations
pub record Formats : Type 1 where
  pub lowercase : Lowercase
  pub json : Json
  pub blocks : Codec
  pub logs : ItemCodec
  pub receipts : Codec
  pub fee_histories : Codec
  pub sha256 : Text → Text
  pub sha256_length : (t : Text) → length (sha256 t) ≡ 32
  pub decode : Text → Option ResponseTransform

module _ (F : Formats) where
  -- `ResponseTransform::apply`
  unfoldable pub apply : ResponseTransform → Text → Text
  unfolding redact_response redact_collection_response sanitize
  apply block body = redact_response F.blocks body
  apply log_entries body = redact_collection_response F.logs F.sha256 body
  apply transaction_receipt body = redact_response F.receipts body
  apply fee_history body = redact_response F.fee_histories body
  apply send_raw_transaction body = sanitize F.lowercase F.json body

  unfoldable pub transformed : Option ResponseTransform → Text → Text
  unfolding apply
  transformed none body = body
  transformed (some t) body = apply t body

  unfoldable pub cleanup_response : TransformArgs → HttpResponse
  unfolding transformed
  cleanup_response args =
      let r = args.response in
      let status_ok = leb 200 r.status && ltb r.status 300 in
      let body =
        if status_ok && not (is_empty args.context)
        then transformed (F.decode args.context) r.body
        else r.body in
      record { status = r.status; headers = []; body = body }
