-- ===== src/Tests/Alloying.antt =====
-- Answers in the types of alloy.
use mathlib.Core.HLevel.{Discrete}
use native.Mathlib.Decide.{ℕ_discrete}
use evm_rpc_canister.Prelude.{
  ℕ, ◌^◌, ◌%◌, ◌<◌, ◌≤◌, ◌≡◌, ◌↔◌, refl, ap, true, false, leb, Bool, List, [], ◌∷◌, length, All, ok,
  err, none, some, Option, Text, text, Result, arith, if◌then◌else◌, ◌==◌, inl, inr,
}
use evm_rpc_canister.Numbers.{U8, Array}
use evm_rpc_canister.Numbers.Hex.{hex_byte_from}
use evm_rpc_canister.Types.Error.{RpcResult}
use evm_rpc_canister.Types.Service.{RpcService}
use evm_rpc_canister.Types.MultiResult.{PartialEq, MultiRpcResult, consistent, inconsistent}
use evm_rpc_canister.Types.Response as Candid
use evm_rpc_canister.Types.Request as Request
use evm_rpc_canister.Alloy.{Primitives}
use evm_rpc_canister.Alloy.Responses.{
  Log, FeeHistory, Block, Header, ConsensusHeader, Consensus, ReceiptWithBloom, TransactionReceipt,
  block_try_from, receipt_try_from,
}
use evm_rpc_canister.Alloy.Results.{logs_into, block_into}
use evm_rpc_canister.Alloy.Requests as Tags
use evm_rpc_canister.Alloy.Requests.{block_tag_from, block_number_or_tag_try_from}
use evm_rpc_canister.Alloy.Tags.{block_tag_iff}
use evm_rpc_canister.Alloy.Blocks.{IsConvertible}
use evm_rpc_canister.Alloy.Lossless.{settled, block_try_from_iff}
use evm_rpc_canister.Alloy.Receipts.{ReceiptFits, receipt_try_from_iff}
use evm_rpc_canister.Alloy.Agreement.{and_then_iff, block_into-agreed}
use evm_rpc_canister.Client.{RpcMethod}
use evm_rpc_canister.ClientLibrary.{ClientConfig, client_builder_new, UpdateCall, with_cycles}
use evm_rpc_canister.ClientLibrary.Outputs.{
  EvmRpcRequest, Equalities, request_type, try_send, request_of,
}
use evm_rpc_canister.Tests.Platforms.{big_uint, u256}
use evm_rpc_canister.Tests.Numbering.{small, hash, address, five, empty, bloom}
use evm_rpc_canister.Tests.Converting.{
  of_discrete, nat256_discrete, u8_discrete, no_filter, list_discrete, array_discrete,
}

new_log_data : {T B : Type 0} → List T → B → Option (List T × B)
new_log_data ts b = if leb (length ts) 4 then some (ts, b) else none

new_log_data-none :
    {T B : Type 0} (ts : List T) (b : B) → (new_log_data ts b ≡ none) ↔ (4 < length ts)
unfolding new_log_data
new_log_data-none ts b = (λ h. ground (arith, h), λ h. ground (arith, h))

new_log_data-some :
    {T B : Type 0} (ts : List T) (b : B) (d : List T × B)
    → new_log_data ts b ≡ some d
    → (d.0 ≡ ts) × (d.1 ≡ b)
unfolding new_log_data
new_log_data-some ts b d h = ground (arith, h)

word_back : (n : ℕ) → n < 2 ^ 64 → n % 2 ^ 64 ≡ n
word_back n h = omega (arith, h)

word_below : (n : ℕ) → n % 2 ^ 64 < 2 ^ 64
word_below n = omega arith

-- Arrays and lists for alloy's values; a number's remainder stands for eight bytes.
abbrev alloy : Primitives
alloy = record {
  big_uint = big_uint;
  overflow = text "out of range";
  Address = Array 20;
  address_from = λ a. a;
  address_into_array = λ a. a;
  address_back = λ a. refl;
  address_again = λ a. refl;
  B256 = Array 32;
  b256_from = λ a. a;
  b256_array = λ a. a;
  b256_back = λ a. refl;
  b256_again = λ a. refl;
  Bloom = Array 256;
  bloom_from = λ a. a;
  bloom_into_array = λ a. a;
  bloom_back = λ a. refl;
  Bytes = List U8;
  bytes_from_iter = λ bs. bs;
  bytes_to_vec = λ bs. bs;
  bytes_back = λ bs. refl;
  bytes_again = λ bs. refl;
  B64 = ℕ;
  b64_from = λ n. n;
  b64_into = λ n. n % 2 ^ 64;
  b64_into-lt = word_below;
  b64_back = word_back;
  uint = u256;
  LogData = List (Array 32) × List U8;
  log_data_new = new_log_data;
  log_data_topics = λ d. d.0;
  log_data_bytes = λ d. d.1;
  log_data_new-none = new_log_data-none;
  log_data_new-some = new_log_data-some;
}

known_type : U8 → Result U8 Text
known_type b = if leb b.value 5 then ok b else err (text "unexpected type")

abbrev consensus : Consensus alloy
consensus = record {
  TxType = U8;
  tx_type_try_from = known_type;
  Envelope = U8 × ReceiptWithBloom alloy;
  from_typed = λ t r. (t, r);
}

abbrev block : Candid.Block
block = record {
  base_fee_per_gas = some small;
  number = small;
  difficulty = some small;
  extra_data = empty;
  gas_limit = small;
  gas_used = small;
  hash = hash;
  logs_bloom = bloom;
  miner = address;
  mix_hash = hash;
  nonce = small;
  parent_hash = hash;
  receipts_root = hash;
  sha3_uncles = hash;
  size = small;
  state_root = hash;
  timestamp = small;
  total_difficulty = none;
  transactions = hash ∷ [];
  transactions_root = some hash;
  uncles = [];
}

block-IsConvertible : IsConvertible block
block-IsConvertible = record {
  rooted = (hash, refl);
  ruled = inl (omega arith);
  number_fits = omega arith;
  gas_limit_fits = omega arith;
  gas_used_fits = omega arith;
  timestamp_fits = omega arith;
  nonce_fits = omega arith;
  base_fee_fits = omega arith;
}

block_try_from_iff_example :
    ((a : Block alloy) × (block_try_from alloy block ≡ ok a)) ↔ IsConvertible block
block_try_from_iff_example = block_try_from_iff alloy block

abbrev converted : (a : Block alloy) × (block_try_from alloy block ≡ ok a)
converted = (block_try_from_iff alloy block).1 block-IsConvertible

u256_discrete : Discrete u256.U256
unfolding u256
u256_discrete = nat256_discrete

inner_discrete : Discrete (ConsensusHeader alloy)
inner_discrete = hlevel (u256_discrete, list_discrete, array_discrete, ℕ_discrete)

header_discrete : Discrete (Header alloy)
header_discrete = hlevel (inner_discrete, u256_discrete, array_discrete)

block_discrete : Discrete (Block alloy)
block_discrete = hlevel (header_discrete, array_discrete)

instance block_eq : PartialEq (RpcResult (Block alloy))
block_eq = of_discrete (hlevel (block_discrete, list_discrete, ℕ_discrete))

abbrev two_blocks : List (RpcService × RpcResult Candid.Block)
two_blocks = (RpcService.provider 1, ok block) ∷ (RpcService.provider 2, ok block) ∷ []

two_blocks-agree : block_into alloy (inconsistent two_blocks) ≡ consistent (ok converted.0)
unfolding block_into
two_blocks-agree =
    (and_then_iff (block_try_from alloy) converted.0 two_blocks).1
      (refl, ((block, refl, converted.1), ((block, refl, converted.1), tt)))

block_into-agreed_example :
    (b : Candid.Block) × (block_try_from alloy b ≡ ok converted.0)
    × All
        (λ entry. (c : Candid.Block) × (entry.1 ≡ ok c) × (settled alloy c ≡ settled alloy b))
        two_blocks
block_into-agreed_example = block_into-agreed alloy converted.0 two_blocks two_blocks-agree

instance hash_eq : PartialEq (RpcResult (Array 32))
hash_eq = of_discrete (hlevel (array_discrete, list_discrete, ℕ_discrete))

abbrev receipt : Candid.TransactionReceipt
receipt = record {
  block_hash = hash;
  block_number = small;
  effective_gas_price = small;
  gas_used = small;
  cumulative_gas_used = small;
  status = some small;
  root = none;
  transaction_hash = hash;
  contract_address = none;
  from = address;
  logs = [];
  logs_bloom = bloom;
  to = some address;
  transaction_index = small;
  tx_type = hex_byte_from five;
}

receipt_try_from_iff_example :
    ((t : TransactionReceipt consensus) × (receipt_try_from consensus receipt ≡ ok t))
    ↔ ReceiptFits consensus receipt
receipt_try_from_iff_example = receipt_try_from_iff consensus receipt

block_tag_iff_example :
    (block_number_or_tag_try_from alloy (Request.number small)
      ≡ ok (Tags.number (record { value = 70_000; below = refl })))
    ↔ (Request.number small
        ≡ block_tag_from alloy (Tags.number (record { value = 70_000; below = refl })))
block_tag_iff_example =
    block_tag_iff alloy (Request.number small)
      (Tags.number (record { value = 70_000; below = refl }))

-- The equality of results
log_discrete : Discrete (Log alloy)
log_discrete = hlevel (list_discrete, array_discrete, ℕ_discrete)

receipt_discrete : Discrete (TransactionReceipt consensus)
receipt_discrete = hlevel (log_discrete, u8_discrete, array_discrete, ℕ_discrete)

logs_eq : PartialEq (RpcResult (List (Log alloy)))
logs_eq = of_discrete (hlevel (log_discrete, list_discrete, ℕ_discrete))

fee_history_eq : PartialEq (RpcResult (FeeHistory alloy ℕ))
fee_history_eq = of_discrete (hlevel (list_discrete, ℕ_discrete))

u256_eq : PartialEq (RpcResult u256.U256)
u256_eq = of_discrete (hlevel (u256_discrete, list_discrete, ℕ_discrete))

bytes_eq : PartialEq (RpcResult (List U8))
bytes_eq = of_discrete (hlevel (list_discrete, ℕ_discrete))

receipt_eq : PartialEq (RpcResult (Option (TransactionReceipt consensus)))
receipt_eq = of_discrete (hlevel (receipt_discrete, list_discrete, ℕ_discrete))

abbrev equalities : Equalities consensus ℕ
equalities = record {
  logs_eq = logs_eq;
  block_eq = block_eq;
  fee_history_eq = fee_history_eq;
  u256_eq = u256_eq;
  bytes_eq = bytes_eq;
  b256_eq = hash_eq;
  receipt_eq = receipt_eq;
}

abbrev client : ClientConfig ℕ
client = client_builder_new 1 (text "id")

abbrev logs_request : EvmRpcRequest
logs_request = request_type equalities RpcMethod.eth_get_logs

all_logs : logs_request.Params
unfolding request_type
all_logs = no_filter

-- A runtime that answers without a log
no_logs : ℕ → UpdateCall logs_request.Config logs_request.Params logs_request.CandidOutput
unfolding request_type
no_logs runtime canister method args cycles = ok (consistent (ok []))

no_entry : logs_request.Output
unfolding request_type
no_entry = consistent (ok [])

no_logs_sent :
    try_send logs_request no_logs client
      (with_cycles 7 (request_of equalities RpcMethod.eth_get_logs client all_logs))
    ≡ ok no_entry
unfolding request_type request_of try_send logs_into evm_rpc_canister.Types.MultiResult.and_then
    no_logs no_entry evm_rpc_canister.Prelude.collect_results
no_logs_sent = refl
