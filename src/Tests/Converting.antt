-- ===== src/Tests/Converting.antt =====
-- Arguments and results that are converted.
use mathlib.Core.HLevel.{Discrete}
use native.Mathlib.Decide.{ℕ_discrete}
use evm_rpc_canister.Prelude.{
  ℕ, ◌≡◌, ◌↔◌, refl, true, false, Bool, List, [], ◌∷◌, ok, none, some, ap,
}
use evm_rpc_canister.Numbers.{U8, U8-eq, Array, Array-eq}
use evm_rpc_canister.Numbers.Nat256.{Nat256, Nat256-eq}
use evm_rpc_canister.Types.Error.{RpcResult}
use evm_rpc_canister.Types.MultiResult.{PartialEq, map_results, consistent, inconsistent}
use evm_rpc_canister.Types.Response as Candid
use evm_rpc_canister.Types.Request as Request
use evm_rpc_canister.Tests.Platforms.{platform}
use evm_rpc_canister.Tests.Numbering.{small, hash, address, five, empty, bloom}
use evm_rpc_canister.JsonRpc.{LogsBloom, json_byte_new}
use evm_rpc_canister.JsonRpc.Responses as Json
use evm_rpc_canister.Types.Service.{RpcService}
use evm_rpc_canister.Types.MultiResult.Agreement.{IsUnanimous}
use evm_rpc_canister.Numbers.Amount.{Amount}
use evm_rpc_canister.Conversion.{quantity, address_of, into_hash, into_data}
use evm_rpc_canister.Conversion.Results.{from_block}
use evm_rpc_canister.Conversion.Agreement.{map_results-from_block_iff}

of_dec : {A : Type 0} (a b : A) → Dec (a ≡ b) → (t : Bool) × ((t ≡ true) ↔ (a ≡ b))
of_dec a b (Dec.yes e) = (true, (λ _. e, λ _. refl))
of_dec a b (Dec.no n) = (false, (λ h. cc h, λ e. absurd (n e)))

pub of_discrete : {A : Type 0} → Discrete A → PartialEq A
of_discrete d = record {
  same = λ a b. (of_dec a b (d a b)).0;
  same_iff = λ a b. (of_dec a b (d a b)).1;
}

pub u8_discrete : Discrete U8
u8_discrete a b = elim (ℕ_discrete a.value b.value) [
  | Dec.yes e ↦ Dec.yes (U8-eq e)
  | Dec.no n ↦ Dec.no (λ e. n (ap (λ c. c.value) e))
]

pub nat256_discrete : Discrete Nat256
nat256_discrete a b = elim (ℕ_discrete a.nat b.nat) [
  | Dec.yes e ↦ Dec.yes (Nat256-eq e)
  | Dec.no n ↦ Dec.no (λ e. n (ap (λ c. c.nat) e))
]

pub list_discrete : Discrete (List U8)
list_discrete = hlevel u8_discrete

pub array_discrete : {n : ℕ} → Discrete (Array n)
array_discrete {n} a b = elim (list_discrete a.elements b.elements) [
  | Dec.yes e ↦ Dec.yes (Array-eq e)
  | Dec.no n ↦ Dec.no (λ e. n (ap (λ c. c.elements) e))
]

block_discrete : Discrete (RpcResult Candid.Block)
block_discrete = hlevel (nat256_discrete, list_discrete, array_discrete, ℕ_discrete)

receipt_discrete : Discrete (RpcResult Candid.TransactionReceipt)
receipt_discrete = hlevel (nat256_discrete, list_discrete, array_discrete, ℕ_discrete)

abbrev sender : platform.Address
sender = address_of platform address

abbrev zero_bloom : LogsBloom
zero_bloom = record { bytes = bloom.bytes }

abbrev seventy_thousand : Amount platform.ethnum
seventy_thousand = quantity platform small

abbrev receipt : Json.TransactionReceipt platform
receipt = record {
  block_hash = into_hash hash;
  block_number = seventy_thousand;
  effective_gas_price = seventy_thousand;
  cumulative_gas_used = seventy_thousand;
  gas_used = seventy_thousand;
  status = some Json.success;
  root = none;
  transaction_hash = into_hash hash;
  contract_address = none;
  from = sender;
  logs = [];
  logs_bloom = zero_bloom;
  to = some sender;
  transaction_index = seventy_thousand;
  tx_type = json_byte_new five;
}

abbrev block : Json.Block platform
block = record {
  base_fee_per_gas = some seventy_thousand;
  number = seventy_thousand;
  difficulty = none;
  extra_data = into_data empty;
  gas_limit = seventy_thousand;
  gas_used = seventy_thousand;
  hash = into_hash hash;
  logs_bloom = zero_bloom;
  miner = sender;
  mix_hash = into_hash hash;
  nonce = seventy_thousand;
  parent_hash = into_hash hash;
  receipts_root = into_hash hash;
  sha3_uncles = into_hash hash;
  size = seventy_thousand;
  state_root = into_hash hash;
  timestamp = seventy_thousand;
  transactions = into_hash hash ∷ [];
  transactions_root = none;
  uncles = [];
}

abbrev block_results : List (RpcService × RpcResult (Json.Block platform))
block_results = (RpcService.provider 1, ok block) ∷ (RpcService.provider 2, ok block) ∷ []

map_results-from_block_iff_example :
    (map_results ⦃p = of_discrete block_discrete⦄ (from_block platform) (inconsistent block_results)
      ≡ consistent (ok (from_block platform block)))
    ↔ IsUnanimous (ok block) block_results
map_results-from_block_iff_example =
    map_results-from_block_iff platform (of_discrete block_discrete) block_results (ok block)

abbrev pub no_filter : Request.GetLogsArgs
no_filter = record {
  from_block = none;
  to_block = some Request.latest;
  addresses = address ∷ [];
  topics = none;
}
