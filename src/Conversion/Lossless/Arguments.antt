-- ===== src/Conversion/Lossless/Arguments.antt =====
-- The converted arguments tell everything that the caller's arguments tell, but for the defaults.
use evm_rpc_canister.Prelude.{◌≡◌, refl, ap, sym, ◌∙◌, Option, none, some, [], map, ◌↔◌, unwrap_or}
use evm_rpc_canister.Numbers.{Platform}
use evm_rpc_canister.Numbers.Hex.{Hex32}
use evm_rpc_canister.JsonRpc.{StorageKey}
use evm_rpc_canister.Types.Request as Candid
use evm_rpc_canister.JsonRpc.Requests as Json
use evm_rpc_canister.Conversion.{
  map_some, number_of, hex20_of, hex_byte_of, hex32_of_hash, hex32_of_data, from_data, into_hash,
  into_data, address_of, fixed_of_hex32, storage_key_of,
}
use evm_rpc_canister.Conversion.Arguments.{
  into_block_spec, into_get_logs_param, access_list_item, map_access_list, into_transaction_request,
  into_eth_call_params,
}
use evm_rpc_canister.Conversion.Lossless.{
  undone-inj, map_some-back, map-back, hex_byte_back, number_back, hex20_back,
}

abbrev hex32_of_key : StorageKey → Hex32
hex32_of_key k = record { bytes = k.bytes }

module _ (P : Platform) where
  block_tag_of : Json.BlockSpec P → Candid.BlockTag
  block_tag_of (Json.number n) = Candid.number (number_of P n)
  block_tag_of (Json.tag Json.latest) = Candid.latest
  block_tag_of (Json.tag Json.safe) = Candid.safe
  block_tag_of (Json.tag Json.finalized) = Candid.finalized
  block_tag_of (Json.tag Json.earliest) = Candid.earliest
  block_tag_of (Json.tag Json.pending) = Candid.pending

  block_tag_back : (t : Candid.BlockTag) → block_tag_of (into_block_spec P t) ≡ t
  unfolding block_tag_of into_block_spec
  block_tag_back (Candid.number n) = ap Candid.number (number_back P n)
  block_tag_back Candid.latest = refl
  block_tag_back Candid.safe = refl
  block_tag_back Candid.finalized = refl
  block_tag_back Candid.earliest = refl
  block_tag_back Candid.pending = refl

  entry_of : Json.AccessListItem P → Candid.AccessListEntry
  entry_of item = record {
    address = hex20_of P item.address;
    storage_keys = map hex32_of_key item.storage_keys;
  }

  entry_back : (e : Candid.AccessListEntry) → entry_of (access_list_item P e) ≡ e
  unfolding entry_of access_list_item
  entry_back e = λ i. record {
    address = hex20_back P e.address i;
    storage_keys = map-back storage_key_of hex32_of_key (λ _. refl) e.storage_keys i;
  }

  access_list_of : Json.AccessList P → Candid.AccessList
  access_list_of list = record { entries = map entry_of list.items }

  access_list_back : (l : Candid.AccessList) → access_list_of (map_access_list P l) ≡ l
  unfolding access_list_of map_access_list
  access_list_back l = λ i. record { entries = map-back _ entry_of entry_back l.entries i }

  transaction_of : Json.TransactionRequest P → Candid.TransactionRequest
  transaction_of t = record {
    tx_type = map_some hex_byte_of t.tx_type;
    nonce = map_some (number_of P) t.nonce;
    to = map_some (hex20_of P) t.to;
    from = map_some (hex20_of P) t.from;
    gas = map_some (number_of P) t.gas;
    value = map_some (number_of P) t.value;
    input = map_some from_data t.input;
    gas_price = map_some (number_of P) t.gas_price;
    max_priority_fee_per_gas = map_some (number_of P) t.max_priority_fee_per_gas;
    max_fee_per_gas = map_some (number_of P) t.max_fee_per_gas;
    max_fee_per_blob_gas = map_some (number_of P) t.max_fee_per_blob_gas;
    access_list = map_some access_list_of t.access_list;
    blob_versioned_hashes = map_some (map hex32_of_hash) t.blob_versioned_hashes;
    blobs = map_some (map from_data) t.blobs;
    chain_id = map_some (number_of P) t.chain_id;
  }

  transaction_back :
      (t : Candid.TransactionRequest) → transaction_of (into_transaction_request P t) ≡ t
  unfolding transaction_of into_transaction_request into_hash into_data from_data
  transaction_back t = λ i. record {
    tx_type = map_some-back _ hex_byte_of hex_byte_back t.tx_type i;
    nonce = map_some-back _ (number_of P) (number_back P) t.nonce i;
    to = map_some-back _ (hex20_of P) (hex20_back P) t.to i;
    from = map_some-back _ (hex20_of P) (hex20_back P) t.from i;
    gas = map_some-back _ (number_of P) (number_back P) t.gas i;
    value = map_some-back _ (number_of P) (number_back P) t.value i;
    input = map_some-back into_data from_data (λ _. refl) t.input i;
    gas_price = map_some-back _ (number_of P) (number_back P) t.gas_price i;
    max_priority_fee_per_gas =
        map_some-back _ (number_of P) (number_back P) t.max_priority_fee_per_gas i;
    max_fee_per_gas = map_some-back _ (number_of P) (number_back P) t.max_fee_per_gas i;
    max_fee_per_blob_gas = map_some-back _ (number_of P) (number_back P) t.max_fee_per_blob_gas i;
    access_list = map_some-back _ access_list_of access_list_back t.access_list i;
    blob_versioned_hashes =
        map_some-back _ (map hex32_of_hash) (map-back into_hash hex32_of_hash (λ _. refl))
          t.blob_versioned_hashes i;
    blobs = map_some-back _ (map from_data) (map-back into_data from_data (λ _. refl)) t.blobs i;
    chain_id = map_some-back _ (number_of P) (number_back P) t.chain_id i;
  }

  -- The block that an optional block tag stands for
  abbrev pub tag_or_latest : Option Candid.BlockTag → Candid.BlockTag
  tag_or_latest block = unwrap_or block Candid.latest

  -- Two calls have the same parameters exactly if they have the same transaction and the same block,
  -- where no block means the latest.
  pub into_eth_call_params_iff :
      (a b : Candid.CallArgs)
      → (into_eth_call_params P a ≡ into_eth_call_params P b)
        ↔ ((a.transaction ≡ b.transaction) × (tag_or_latest a.block ≡ tag_or_latest b.block))
  unfolding into_eth_call_params Candid.block_tag_default
  into_eth_call_params_iff a b = (
    λ h. (
      undone-inj _ transaction_of transaction_back (ap (λ p. p.transaction) h),
      undone-inj _ block_tag_of block_tag_back (ap (λ p. p.block) h),
    ),
    λ h i. record {
      transaction = into_transaction_request P (h.0 i);
      block = into_block_spec P (h.1 i);
    },
  )

  spec_or_default :
      (o : Option Candid.BlockTag)
      → unwrap_or (map_some (into_block_spec P) o) (Json.block_spec_default P)
        ≡ into_block_spec P (tag_or_latest o)
  unfolding Json.block_spec_default into_block_spec
  spec_or_default none = refl
  spec_or_default (some t) = refl

  -- Two queries of logs have the same parameters exactly if they have the same first and last block,
  -- where no block means the latest, the same addresses, and the same topics, where no topics mean
  -- the empty list of topics.
  pub into_get_logs_param_iff :
      (a b : Candid.GetLogsArgs)
      → (into_get_logs_param P a ≡ into_get_logs_param P b) ↔ (
          (tag_or_latest a.from_block ≡ tag_or_latest b.from_block)
          × (tag_or_latest a.to_block ≡ tag_or_latest b.to_block)
          × (a.addresses ≡ b.addresses)
          × (unwrap_or a.topics [] ≡ unwrap_or b.topics []))
  unfolding into_get_logs_param
  into_get_logs_param_iff a b =
      let same_tag : (o q : Option Candid.BlockTag)
          → unwrap_or (map_some (into_block_spec P) o) (Json.block_spec_default P)
            ≡ unwrap_or (map_some (into_block_spec P) q) (Json.block_spec_default P)
          → tag_or_latest o ≡ tag_or_latest q =
        λ o q e.
          undone-inj _ block_tag_of block_tag_back
            (sym (spec_or_default o) ∙ (e ∙ spec_or_default q)) in
      let same_spec : (o q : Option Candid.BlockTag)
          → tag_or_latest o ≡ tag_or_latest q
          → unwrap_or (map_some (into_block_spec P) o) (Json.block_spec_default P)
            ≡ unwrap_or (map_some (into_block_spec P) q) (Json.block_spec_default P) =
        λ o q e. spec_or_default o ∙ (ap (into_block_spec P) e ∙ sym (spec_or_default q)) in
      (
        λ h. (
          same_tag a.from_block b.from_block (ap (λ p. p.from_block) h),
          same_tag a.to_block b.to_block (ap (λ p. p.to_block) h),
          undone-inj _ (map (hex20_of P)) (map-back _ (hex20_of P) (hex20_back P))
              (ap (λ p. p.address) h),
          undone-inj _ (map (map hex32_of_data))
              (map-back _ (map hex32_of_data) (map-back _ hex32_of_data (λ _. refl)))
              (ap (λ p. p.topics) h),
        ),
        λ h i. record {
          from_block = same_spec a.from_block b.from_block h.0 i;
          to_block = same_spec a.to_block b.to_block h.1 i;
          address = map (address_of P) (h.2 i);
          topics = map (map fixed_of_hex32) (h.3 i);
        },
      )
