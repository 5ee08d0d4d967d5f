-- ===== src/Metrics/Labels.antt =====
-- The labels of the counters (`MetricLabels` and `MetricValue` of `src/types/mod.rs`).
use evm_rpc_canister.Prelude.{
  ℕ, ◌≡◌, ◌∙◌, refl, ap, sym, List, [], ◌∷◌, ◌++◌, Text, text, show, length, ◌==◌, if◌then◌else◌,
}
use evm_rpc_canister.Types.Error.{LegacyRejectionCode}
use evm_rpc_canister.Metrics.Decimal.{show-inj}

abbrev pub Labels : Type 0
Labels = List (Text × Text)

unfoldable pub method_labels : Text → Labels
unfolding text
method_labels method = (text "method", method) ∷ []

unfoldable pub host_labels : Text → Labels
unfolding text
host_labels host = (text "host", host) ∷ []

-- `MetricHttpStatusCode`, whose text is the number
unfoldable pub status_labels : ℕ → Labels
unfolding text show
status_labels status = (text "status", show status) ∷ []

unfoldable pub code_label : LegacyRejectionCode → Text
unfolding text
code_label LegacyRejectionCode.no_error = text "NO_ERROR"
code_label LegacyRejectionCode.sys_fatal = text "SYS_FATAL"
code_label LegacyRejectionCode.sys_transient = text "SYS_TRANSIENT"
code_label LegacyRejectionCode.destination_invalid = text "DESTINATION_INVALID"
code_label LegacyRejectionCode.canister_reject = text "CANISTER_REJECT"
code_label LegacyRejectionCode.canister_error = text "CANISTER_ERROR"
code_label LegacyRejectionCode.unknown = text "UNKNOWN"

unfoldable pub code_labels : LegacyRejectionCode → Labels
unfolding text code_label
code_labels code = (text "code", code_label code) ∷ []

-- The implementations for pairs and for triples
unfoldable pub pair_labels : {A B : Type 0} → (A → Labels) → (B → Labels) → A × B → Labels
pair_labels f g (a, b) = f a ++ g b

unfoldable pub triple_labels :
    {A B C : Type 0} → (A → Labels) → (B → Labels) → (C → Labels) → A × (B × C) → Labels
triple_labels f g h (a, (b, c)) = f a ++ (g b ++ h c)

-- The keys of the counters
unfoldable pub request_labels : Text × Text → Labels
unfolding pair_labels method_labels host_labels
request_labels = pair_labels method_labels host_labels

unfoldable pub response_labels : Text × (Text × ℕ) → Labels
unfolding triple_labels method_labels host_labels status_labels
response_labels = triple_labels method_labels host_labels status_labels

unfoldable pub error_labels : Text × (Text × LegacyRejectionCode) → Labels
unfolding triple_labels method_labels host_labels code_labels
error_labels = triple_labels method_labels host_labels code_labels

-- The labels of codes have different lengths.
of_length : ℕ → LegacyRejectionCode
of_length n =
    if n == 8
    then LegacyRejectionCode.no_error
    else if n == 9
    then LegacyRejectionCode.sys_fatal
    else if n == 13
    then LegacyRejectionCode.sys_transient
    else if n == 19
    then LegacyRejectionCode.destination_invalid
    else if n == 15
    then LegacyRejectionCode.canister_reject
    else if n == 14
    then LegacyRejectionCode.canister_error
    else LegacyRejectionCode.unknown

of_length-code_label : (c : LegacyRejectionCode) → of_length (length (code_label c)) ≡ c
unfolding code_label text of_length
of_length-code_label LegacyRejectionCode.no_error = refl
of_length-code_label _ = refl

code_label-inj : (c d : LegacyRejectionCode) → code_label c ≡ code_label d → c ≡ d
code_label-inj c d e =
    sym (of_length-code_label c) ∙ (ap (λ t. of_length (length t)) e ∙ of_length-code_label d)

-- Keys with the same labels are the same key, so that no two counters of a metric are written under
-- the same labels.
pub labels-inj :
    (k l : Text × Text) (r s : Text × (Text × ℕ)) (e f : Text × (Text × LegacyRejectionCode))
    → (request_labels k ≡ request_labels l → k ≡ l)
      × (response_labels r ≡ response_labels s → r ≡ s)
      × (error_labels e ≡ error_labels f → e ≡ f)
unfolding request_labels response_labels error_labels
labels-inj (m, h) (n, i) (o, (j, c)) (p, (q, d)) (t, (u, x)) (v, (w, y)) = (
  λ z. cc z,
  λ z. let same : show c ≡ show d = cc z in cc (z, show-inj c d same),
  λ z. let same : code_label x ≡ code_label y = cc z in cc (z, code_label-inj x y same),
)
