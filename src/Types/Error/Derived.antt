-- ===== src/Types/Error/Derived.antt =====
-- The equality that `evm_rpc_types/src/result/mod.rs` derives for errors and results, through a key
-- that tells the errors apart.
use evm_rpc_canister.Ord.{Ord, ◌=?◌, =?_iff}
use evm_rpc_canister.Ord.Instances.{nat_ord, pair_ord, list_ord, option_ord, key_ord, key_injective}
use evm_rpc_canister.Prelude.{
  ℕ, Bool, true, false, ◌==◌, ◌≡◌, ◌↔◌, [], Option, none, some, Text, ok, err, if◌then◌else◌, arith,
}
use evm_rpc_canister.Types.Error.{
  ℤ, pos, negsuc, ProviderError, LegacyRejectionCode, HttpOutcallError, ValidationError, RpcError,
  provider_error, http_outcall_error, json_rpc_error, validation_error, RpcResult,
}
use evm_rpc_canister.Types.MultiResult.{PartialEq}

-- Which error, two numbers and two texts; a field that an error lacks is empty.
abbrev pub ErrorKey : Type 0
ErrorKey = ℕ × (ℕ × (ℕ × (Text × Option Text)))

-- The discriminants
unfoldable pub rejection_index : LegacyRejectionCode → ℕ
rejection_index LegacyRejectionCode.no_error = 0
rejection_index LegacyRejectionCode.sys_fatal = 1
rejection_index LegacyRejectionCode.sys_transient = 2
rejection_index LegacyRejectionCode.destination_invalid = 3
rejection_index LegacyRejectionCode.canister_reject = 4
rejection_index LegacyRejectionCode.canister_error = 5
rejection_index LegacyRejectionCode.unknown = 6

unfoldable pub of_rejection_index : ℕ → LegacyRejectionCode
of_rejection_index n =
    if n == 0
    then LegacyRejectionCode.no_error
    else if n == 1
    then LegacyRejectionCode.sys_fatal
    else if n == 2
    then LegacyRejectionCode.sys_transient
    else if n == 3
    then LegacyRejectionCode.destination_invalid
    else if n == 4
    then LegacyRejectionCode.canister_reject
    else if n == 5
    then LegacyRejectionCode.canister_error
    else LegacyRejectionCode.unknown

of_rejection_index-rejection_index :
    (c : LegacyRejectionCode) → of_rejection_index (rejection_index c) ≡ c
unfolding rejection_index of_rejection_index
of_rejection_index-rejection_index c = ground arith

-- The sign as 7 or 8, and the number in the constructor
pub code_sign : ℤ → ℕ
code_sign (pos n) = 7
code_sign (negsuc n) = 8

pub code_size : ℤ → ℕ
code_size (pos n) = n
code_size (negsuc n) = n

pub error_key : RpcError → ErrorKey
unfolding rejection_index code_sign code_size
error_key (provider_error ProviderError.no_permission) = (0, (0, (0, ([], none))))
error_key (provider_error (ProviderError.too_few_cycles a b)) = (1, (a, (b, ([], none))))
error_key (provider_error ProviderError.provider_not_found) = (2, (0, (0, ([], none))))
error_key (provider_error ProviderError.missing_required_provider) = (3, (0, (0, ([], none))))
error_key (provider_error (ProviderError.invalid_rpc_config t)) = (4, (0, (0, (t, none))))
error_key (http_outcall_error (HttpOutcallError.ic_error c t)) =
    (5, (rejection_index c, (0, (t, none))))
error_key (http_outcall_error (HttpOutcallError.invalid_http_json_rpc_response n t e)) =
    (6, (n, (0, (t, e))))
error_key (json_rpc_error e) = (code_sign e.code, (code_size e.code, (0, (e.message, none))))
error_key (validation_error (ValidationError.custom t)) = (9, (0, (0, (t, none))))
error_key (validation_error (ValidationError.invalid_hex t)) = (10, (0, (0, (t, none))))

of_error_fields : ℕ → ℕ → ℕ → Text → Option Text → RpcError
unfolding of_rejection_index
of_error_fields tag a b t e =
    if tag == 0
    then provider_error ProviderError.no_permission
    else if tag == 1
    then provider_error (ProviderError.too_few_cycles a b)
    else if tag == 2
    then provider_error ProviderError.provider_not_found
    else if tag == 3
    then provider_error ProviderError.missing_required_provider
    else if tag == 4
    then provider_error (ProviderError.invalid_rpc_config t)
    else if tag == 5
    then http_outcall_error (HttpOutcallError.ic_error (of_rejection_index a) t)
    else if tag == 6
    then http_outcall_error (HttpOutcallError.invalid_http_json_rpc_response a t e)
    else if tag == 7
    then json_rpc_error (record { code = pos a; message = t })
    else if tag == 8
    then json_rpc_error (record { code = negsuc a; message = t })
    else if tag == 9
    then validation_error (ValidationError.custom t)
    else validation_error (ValidationError.invalid_hex t)

of_error_key : ErrorKey → Option RpcError
unfolding of_error_fields
of_error_key k = some (of_error_fields k.0 k.1.0 k.1.1.0 k.1.1.1.0 k.1.1.1.1)

of_error_key-error_key : (e : RpcError) → of_error_key (error_key e) ≡ some e
unfolding of_error_key error_key
of_error_key-error_key (http_outcall_error (HttpOutcallError.ic_error c t)) =
    rw of_rejection_index-rejection_index
of_error_key-error_key e = ground arith

pub error_inj : (x y : RpcError) → error_key x ≡ error_key y → x ≡ y
error_inj = key_injective error_key of_error_key of_error_key-error_key

instance unfoldable pub error_ord : Ord RpcError
unfolding error_key
error_ord = key_ord error_key error_inj

module _ {A : Type 0} ⦃o : Ord A⦄ where
  unfoldable pub same_result : RpcResult A → RpcResult A → Bool
  unfolding error_ord
  same_result (ok a) (ok b) = a =? b
  same_result (err e) (err d) = e =? d
  same_result _ _ = false

  pub same_result_iff : (r s : RpcResult A) → (same_result r s ≡ true) ↔ (r ≡ s)
  unfolding same_result
  same_result_iff (ok a) (ok b) = ground (arith, =?_iff a b)
  same_result_iff (err e) (err d) = ground (arith, =?_iff e d)
  same_result_iff (ok a) (err d) = ground arith
  same_result_iff (err e) (ok b) = ground arith

  instance unfoldable pub result_partial_eq : PartialEq (RpcResult A)
  unfolding same_result
  result_partial_eq = record { same = same_result; same_iff = same_result_iff }
