-- ===== src/Alloy/Receipts.antt =====
-- Which log entries and receipts become those of alloy (`evm_rpc_types/src/response/alloy.rs`).
use evm_rpc_canister.Prelude.{
  ℕ, ◌^◌, ◌<◌, ◌≤◌, ◌≡◌, ◌↔◌, refl, Option, none, some, List, [], ◌∷◌, map, length, All, Text, text,
  ok, err, ok-Passed, >>=-succeeds, ok_or, transpose, collect_results, Result, arith,
}
use native.Mathlib.Decide.{dec_lt}
use evm_rpc_canister.Types.Error.{RpcError, validation_error, ValidationError}
use evm_rpc_canister.Numbers.Hex.{HexByte, into_byte}
use evm_rpc_canister.Types.Response as Candid
use evm_rpc_canister.Alloy.{u64, u128, Primitives, b256_of_hex32, bytes_of_hex}
use evm_rpc_canister.Alloy.Responses.{
  Log, Eip658Value, try_from_nat256, log_try_from, Consensus, TransactionReceipt, tx_type_of,
  validate_receipt_status, receipt_try_from,
}
use evm_rpc_canister.Alloy.Validation.{
  Fits, transpose-ok, transpose-Fits, try_from_nat256-ok, try_from_nat256-fits, StatusRule,
  validate_receipt_status_iff,
}

module _ {A B E : Type 0} (f : A → Result B E) where
  abbrev pub Succeeds : A → Type 0
  Succeeds a = (b : B) × (f a ≡ ok b)

  pub collect-All : (l : List A) → ((bs : List B) × (collect_results f l ≡ ok bs)) → All Succeeds l
  unfolding collect_results
  collect-All [] h = tt
  collect-All (a ∷ l) h =
      let b = ok-Passed (f a) _ h.1 in
      let bs = ok-Passed (collect_results f l) _ b.2 in ((b.0, b.1), collect-All l (bs.0, bs.1))

  pub All-collect : (l : List A) → All Succeeds l → (bs : List B) × (collect_results f l ≡ ok bs)
  unfolding collect_results
  All-collect [] h = ([], refl)
  All-collect (a ∷ l) h =
      let rest = All-collect l h.1 in
      >>=-succeeds (f a) _ _ h.0.1 (>>=-succeeds (collect_results f l) _ _ rest.1 (_, refl))

length-map : {A B : Type 0} (f : A → B) (l : List A) → length (map f l) ≡ length l
length-map f [] = refl
length-map f (x ∷ l) = omega (arith, length-map f l)

-- Log entries that alloy takes have at most four topics, and numbers of at most 64 bits.
pub record LogFits (e : Candid.LogEntry) : Type 0 where
  pub topics_fit : length e.topics ≤ 4
  pub block_number_fits : Fits u64 e.block_number
  pub transaction_index_fits : Fits u64 e.transaction_index
  pub log_index_fits : Fits u64 e.log_index

module _ (A : Primitives) where
  abbrev data_of : Candid.LogEntry → Option A.LogData
  data_of e = A.log_data_new (map (b256_of_hex32 A) e.topics) (bytes_of_hex A e.data_bytes)

  abbrev data_error : RpcError
  data_error = validation_error (ValidationError.custom (text "Invalid log data"))

  data-topics :
      (e : Candid.LogEntry) (o : Option A.LogData) {d : A.LogData}
      → data_of e ≡ o
      → ok_or o data_error ≡ ok d
      → length e.topics ≤ 4
  data-topics e none q h = cc h
  data-topics e (some d) q h =
      let topics = map (b256_of_hex32 A) e.topics in
      let full : 4 < length topics → data_of e ≡ none =
        (A.log_data_new-none topics (bytes_of_hex A e.data_bytes)).1 in
      few (length topics) (length-map (b256_of_hex32 A) e.topics) (λ k. cc (full k, q))
    where
      few : (n : ℕ) → n ≡ length e.topics → ((4 < n) → ⊥) → length e.topics ≤ 4
      few n p k = elim (dec_lt 4 n) [ yes g ↦ absurd (k g) | no g ↦ omega (arith, p) ]

  topics-data :
      (e : Candid.LogEntry) (o : Option A.LogData)
      → data_of e ≡ o
      → length e.topics ≤ 4
      → (d : A.LogData) × (ok_or o data_error ≡ ok d)
  topics-data e (some d) q h = (d, refl)
  topics-data e none q h =
      let topics = map (b256_of_hex32 A) e.topics in
      let full : 4 < length topics =
        (A.log_data_new-none topics (bytes_of_hex A e.data_bytes)).0 q in
      absurd (omega (arith, full, h, length-map (b256_of_hex32 A) e.topics))

  log-fits : (e : Candid.LogEntry) → ((l : Log A) × (log_try_from A e ≡ ok l)) → LogFits e
  unfolding log_try_from
  log-fits e h =
      let d = ok-Passed (ok_or (data_of e) data_error) _ h.1 in
      let n =
        ok-Passed (transpose (λ v. try_from_nat256 A u64 v (text "block_number")) e.block_number) _
          d.2 in
      let t =
        ok-Passed
          (transpose (λ v. try_from_nat256 A u64 v (text "transaction_index")) e.transaction_index)
          _ n.2 in
      let i =
        ok-Passed (transpose (λ v. try_from_nat256 A u64 v (text "log_index")) e.log_index) _ t.2 in
      record {
        topics_fit = data-topics e (data_of e) refl d.1;
        block_number_fits = (transpose-ok A u64 e.block_number (text "block_number") n.1).0;
        transaction_index_fits =
            (transpose-ok A u64 e.transaction_index (text "transaction_index") t.1).0;
        log_index_fits = (transpose-ok A u64 e.log_index (text "log_index") i.1).0;
      }

  fits-log : (e : Candid.LogEntry) → LogFits e → (l : Log A) × (log_try_from A e ≡ ok l)
  unfolding log_try_from
  fits-log e v =
      >>=-succeeds (ok_or (data_of e) data_error) _ _
        (topics-data e (data_of e) refl v.topics_fit).1
        (>>=-succeeds
          (transpose (λ v. try_from_nat256 A u64 v (text "block_number")) e.block_number) _ _
          (transpose-Fits A u64 e.block_number (text "block_number") v.block_number_fits)
          (>>=-succeeds
            (transpose (λ v. try_from_nat256 A u64 v (text "transaction_index"))
              e.transaction_index)
            _ _
            (transpose-Fits A u64 e.transaction_index (text "transaction_index")
              v.transaction_index_fits)
            (>>=-succeeds (transpose (λ v. try_from_nat256 A u64 v (text "log_index")) e.log_index)
              _ _ (transpose-Fits A u64 e.log_index (text "log_index") v.log_index_fits)
              (_, refl))))

  All-LogFits : (l : List Candid.LogEntry) → All (Succeeds (log_try_from A)) l → All LogFits l
  All-LogFits [] h = tt
  All-LogFits (e ∷ l) h = (log-fits e h.0, All-LogFits l h.1)

  LogFits-All : (l : List Candid.LogEntry) → All LogFits l → All (Succeeds (log_try_from A)) l
  LogFits-All [] h = tt
  LogFits-All (e ∷ l) h = (fits-log e h.0, LogFits-All l h.1)

module _ {A : Primitives} (C : Consensus A) where
  -- The receipts that alloy's type takes: their type is known, their status is that of their time,
  -- their logs are taken, and their numbers fit in alloy's words.
  pub record ReceiptFits (r : Candid.TransactionReceipt) : Type 0 where
    pub typed : (t : C.TxType) × (C.tx_type_try_from (into_byte r.tx_type.byte) ≡ ok t)
    pub settled_status : (s : Eip658Value A) × StatusRule A r.block_number.nat r.root r.status s
    pub cumulative_fits : r.cumulative_gas_used.nat < 2 ^ 64
    pub logs_fit : All LogFits r.logs
    pub index_fits : r.transaction_index.nat < 2 ^ 64
    pub block_fits : r.block_number.nat < 2 ^ 64
    pub gas_fits : r.gas_used.nat < 2 ^ 64
    pub price_fits : r.effective_gas_price.nat < 2 ^ 128

  type-known :
      (b : HexByte) (o : Result C.TxType Text) {t : C.TxType}
      → C.tx_type_try_from (into_byte b.byte) ≡ o
      → tx_type_of C b ≡ ok t
      → (u : C.TxType) × (C.tx_type_try_from (into_byte b.byte) ≡ ok u)
  unfolding tx_type_of
  type-known b (ok u) q h = (u, q)
  type-known b (err e) q h = cc (q, h)

  known-type :
      (b : HexByte) (t : C.TxType)
      → C.tx_type_try_from (into_byte b.byte) ≡ ok t
      → tx_type_of C b ≡ ok t
  unfolding tx_type_of
  known-type b t q = rw q refl

  receipt-fits :
      (r : Candid.TransactionReceipt)
      → ((t : TransactionReceipt C) × (receipt_try_from C r ≡ ok t))
      → ReceiptFits r
  unfolding receipt_try_from
  receipt-fits r h =
      let t = ok-Passed (tx_type_of C r.tx_type) _ h.1 in
      let s = ok-Passed (validate_receipt_status A r.block_number r.root r.status) _ t.2 in
      let c =
        ok-Passed (try_from_nat256 A u64 r.cumulative_gas_used (text "cumulative_gas_used")) _
          s.2 in
      let l = ok-Passed (collect_results (log_try_from A) r.logs) _ c.2 in
      let i =
        ok-Passed (try_from_nat256 A u64 r.transaction_index (text "transaction_index")) _ l.2 in
      let b = ok-Passed (try_from_nat256 A u64 r.block_number (text "block_number")) _ i.2 in
      let g = ok-Passed (try_from_nat256 A u64 r.gas_used (text "gas_used")) _ b.2 in
      let p =
        ok-Passed (try_from_nat256 A u128 r.effective_gas_price (text "effective_gas_price")) _
          g.2 in
      record {
        typed = type-known r.tx_type _ refl t.1;
        settled_status =
            (s.0, (validate_receipt_status_iff A r.block_number r.root r.status s.0).0 s.1);
        cumulative_fits =
            (try_from_nat256-ok A u64 r.cumulative_gas_used (text "cumulative_gas_used") c.1).0;
        logs_fit = All-LogFits A r.logs (collect-All (log_try_from A) r.logs (l.0, l.1));
        index_fits =
            (try_from_nat256-ok A u64 r.transaction_index (text "transaction_index") i.1).0;
        block_fits = (try_from_nat256-ok A u64 r.block_number (text "block_number") b.1).0;
        gas_fits = (try_from_nat256-ok A u64 r.gas_used (text "gas_used") g.1).0;
        price_fits =
            (try_from_nat256-ok A u128 r.effective_gas_price (text "effective_gas_price") p.1).0;
      }

  fits-receipt :
      (r : Candid.TransactionReceipt)
      → ReceiptFits r
      → (t : TransactionReceipt C) × (receipt_try_from C r ≡ ok t)
  unfolding receipt_try_from
  fits-receipt r v =
      let status =
        (validate_receipt_status_iff A r.block_number r.root r.status v.settled_status.0).1
          v.settled_status.1 in
      let logs = All-collect (log_try_from A) r.logs (LogFits-All A r.logs v.logs_fit) in
      >>=-succeeds (tx_type_of C r.tx_type) _ _ (known-type r.tx_type v.typed.0 v.typed.1) (
        >>=-succeeds (validate_receipt_status A r.block_number r.root r.status) _ _ status (
          >>=-succeeds (try_from_nat256 A u64 r.cumulative_gas_used (text "cumulative_gas_used")) _
            _
            (try_from_nat256-fits A u64 r.cumulative_gas_used (text "cumulative_gas_used")
              v.cumulative_fits)
            (>>=-succeeds (collect_results (log_try_from A) r.logs) _ _ logs.1 (
              >>=-succeeds (try_from_nat256 A u64 r.transaction_index (text "transaction_index")) _
                _
                (try_from_nat256-fits A u64 r.transaction_index (text "transaction_index")
                  v.index_fits)
                (>>=-succeeds (try_from_nat256 A u64 r.block_number (text "block_number")) _ _
                  (try_from_nat256-fits A u64 r.block_number (text "block_number") v.block_fits)
                  (>>=-succeeds (try_from_nat256 A u64 r.gas_used (text "gas_used")) _ _
                    (try_from_nat256-fits A u64 r.gas_used (text "gas_used") v.gas_fits)
                    (>>=-succeeds
                      (try_from_nat256 A u128 r.effective_gas_price (text "effective_gas_price")) _
                      _
                      (try_from_nat256-fits A u128 r.effective_gas_price
                        (text "effective_gas_price") v.price_fits)
                      (_, refl))))))))

  -- A receipt becomes a receipt of alloy exactly if its type is one that alloy knows, its status is
  -- readable by the rules of its time, each of its logs has at most four topics and numbers of at
  -- most 64 bits, its own numbers fit in 64 bits and its price in 128.
  pub receipt_try_from_iff :
      (r : Candid.TransactionReceipt)
      → ((t : TransactionReceipt C) × (receipt_try_from C r ≡ ok t)) ↔ ReceiptFits r
  receipt_try_from_iff r = (receipt-fits r, fits-receipt r)
