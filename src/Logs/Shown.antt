-- ===== src/Logs/Shown.antt =====
-- Which entries the path /logs shows (`http_request` of `src/main.rs`).
use evm_rpc_canister.Prelude.{
  ℕ, suc, ◌≡◌, refl, ◌∙◌, Bool, ◌&&◌, leb, List, [], ◌∷◌, if◌then◌else◌, arith,
}
use evm_rpc_canister.Logs.{
  Sort, LogLibrary, LogQuery, retain, pushed_logs, ordering_from_query_params, shown_logs,
}

-- How many elements pass a test
abbrev pub count_by : {A : Type 0} → (A → Bool) → List A → ℕ
count_by p [] = 0
count_by p (x ∷ xs) = if p x then suc (count_by p xs) else count_by p xs

-- canlog's sorting only rearranges.
abbrev pub Rearranges : LogLibrary → Type 0
Rearranges L =
    (order : Sort) (es : List L.Entry) (p : L.Entry → Bool)
    → count_by p (L.sort_logs order es) ≡ count_by p es

module _ (L : LogLibrary) where
  count_by-retain :
      (time : ℕ) (p : L.Entry → Bool) (es : List L.Entry)
      → count_by p (retain L time es) ≡ count_by (λ e. p e && leb time (L.timestamp e)) es
  unfolding retain
  count_by-retain time p [] = refl
  count_by-retain time p (e ∷ es) = ground (arith, count_by-retain time p es)

  -- Where canlog's sorting only rearranges entries, the entries that the path /logs gives to be
  -- written out are, of those of the priority that is asked for, exactly the ones that are not older
  -- than the time that is asked for, each as often as it was logged, in whatever order is asked for.
  pub shown_logs-pushed_logs :
      Rearranges L
      → (query : LogQuery) (time : ℕ) (p : L.Entry → Bool)
      → count_by p (shown_logs L query time)
        ≡ count_by (λ e. p e && leb time (L.timestamp e)) (pushed_logs L query.priority)
  unfolding shown_logs
  shown_logs-pushed_logs same query time p =
      same (ordering_from_query_params L query.sort time)
        (retain L time (pushed_logs L query.priority)) p
      ∙ count_by-retain time p (pushed_logs L query.priority)
