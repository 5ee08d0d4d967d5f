-- ===== src/Tests/Multiples.antt =====
-- canhttp's `MultiResults`, replaced by sequences without repeated services.
use evm_rpc_canister.BTree.Map
use evm_rpc_canister.BTree.Set
use evm_rpc_canister.Ord.{◌=?◌, =?_iff, =?_refl}
use evm_rpc_canister.Prelude.{
  suc, ◌+◌, ◌≡◌, ◌⊎◌, inl, inr, refl, ap, ◌∙◌, true, false, List, [], ◌∷◌, ◌++◌, map, length,
  Option, none, some, ok, err, text, if◌then◌else◌, Bool-cases, arith, length-map, length-append,
}
use evm_rpc_canister.Prelude.Exec.{Exec, returns, traps, ◌>>=◌, has_returned}
use evm_rpc_canister.Types.Service.{RpcService, rpc_service_ord}
use evm_rpc_canister.Types.Error.{RpcError, RpcResult}
use evm_rpc_canister.Calls.{MultiLib, key, ok_part, err_part, joined, answered}

module _ {T : Type 0} where
  pub oks : List (RpcService × RpcResult T) → List (RpcService × T)
  oks [] = []
  oks ((k, ok t) ∷ m) = (k, t) ∷ oks m
  oks ((k, err e) ∷ m) = oks m

  pub errs : List (RpcService × RpcResult T) → List (RpcService × RpcError)
  errs [] = []
  errs ((k, ok t) ∷ m) = errs m
  errs ((k, err e) ∷ m) = (k, e) ∷ errs m

  get-contains :
      (k : RpcService) (m : List (RpcService × T))
      → Set.contains k (map key m) ≡ false
      → Map.get k m ≡ none
  unfolding Map.get
  get-contains k [] h = refl
  get-contains k ((j, r) ∷ m) h = ground (arith, h, get-contains k m)

  contains-get :
      (k : RpcService) (m : List (RpcService × T))
      → Map.get k m ≡ none
      → Set.contains k (map key m) ≡ false
  unfolding Map.get
  contains-get k [] h = refl
  contains-get k ((j, r) ∷ m) h = ground (arith, h, contains-get k m)

  get-append :
      (k : RpcService) (l m : List (RpcService × T))
      → Map.get k (l ++ m) ≡ (elim (Map.get k l) [ some t ↦ some t | none ↦ Map.get k m ])
  unfolding Map.get
  get-append k [] m = refl
  get-append k ((j, r) ∷ l) m = ground (arith, get-append k l m)

module _ {T : Type 0} where
  pub oks-get :
      (k : RpcService) (m : List (RpcService × RpcResult T))
      → Set.is_distinct (map key m) ≡ true
      → (Map.get k (oks m) ≡ ok_part (Map.get k m)) × (Map.get k (errs m) ≡ err_part (Map.get k m))
  unfolding oks errs Map.get Set.is_distinct
  oks-get k [] d = (refl, refl)
  oks-get k ((j, ok t) ∷ m) d = ground (arith, d, oks-get k m, get-contains k m, =?_iff k j)
  oks-get k ((j, err e) ∷ m) d = ground (arith, d, oks-get k m, get-contains k m, =?_iff k j)

  pub parts-length :
      (m : List (RpcService × RpcResult T)) → length (oks m) + length (errs m) ≡ length m
  unfolding oks errs
  parts-length [] = refl
  parts-length ((j, ok t) ∷ m) = omega (arith, parts-length m)
  parts-length ((j, err e) ∷ m) = omega (arith, parts-length m)

  contains-oks :
      (k : RpcService) (m : List (RpcService × RpcResult T))
      → Set.contains k (map key m) ≡ false
      → (Set.contains k (map key (oks m)) ≡ false) × (Set.contains k (map key (errs m)) ≡ false)
  unfolding oks errs
  contains-oks k [] h = (refl, refl)
  contains-oks k ((j, ok t) ∷ m) h = ground (arith, h, contains-oks k m)
  contains-oks k ((j, err e) ∷ m) h = ground (arith, h, contains-oks k m)

  pub parts-distinct :
      (m : List (RpcService × RpcResult T))
      → Set.is_distinct (map key m) ≡ true
      → (Set.is_distinct (map key (oks m)) ≡ true) × (Set.is_distinct (map key (errs m)) ≡ true)
  unfolding oks errs Set.is_distinct
  parts-distinct [] h = (refl, refl)
  parts-distinct ((j, ok t) ∷ m) h = ground (arith, h, contains-oks j m, parts-distinct m)
  parts-distinct ((j, err e) ∷ m) h = ground (arith, h, contains-oks j m, parts-distinct m)

pub record Multi (T : Type 0) : Type 0 where
  pub entries : List (RpcService × RpcResult T)
  pub distinct : Set.is_distinct (map key entries) ≡ true

module _ {T : Type 0} where
  pub fresh_distinct :
      (k : RpcService) (r : RpcResult T) (m : Multi T)
      → Set.contains k (map key m.entries) ≡ false
      → Set.is_distinct (map key ((k, r) ∷ m.entries)) ≡ true
  unfolding Set.is_distinct
  fresh_distinct k r m h = ground (arith, h, m.distinct)

  -- Adds an entry, unless there is one for the service already.
  pub added :
      (k : RpcService) (r : RpcResult T) (m : Multi T)
      → (Set.contains k (map key m.entries) ≡ true) ⊎ (Set.contains k (map key m.entries) ≡ false)
      → Option (Multi T)
  added k r m (inl h) = none
  added k r m (inr h) =
      some (record { entries = (k, r) ∷ m.entries; distinct = fresh_distinct k r m h })

  pub or_else : Multi T → Option (Multi T) → Multi T
  or_else m none = m
  or_else m (some m') = m'

  pub expected : Option (Multi T) → Exec (Multi T)
  expected none = traps (text "duplicate key")
  expected (some m) = returns m

  pub try_add : RpcService → RpcResult T → Multi T → Option (Multi T)
  try_add k r m = added k r m (Bool-cases (Set.contains k (map key m.entries)))

  -- The entries of a sequence, the last ones first
  pub empty : Multi T
  unfolding Set.is_distinct
  empty = record { entries = []; distinct = refl }

  pub built : List (RpcService × RpcResult T) → Multi T
  built [] = empty
  built ((k, r) ∷ l) = or_else (built l) (try_add k r (built l))

  added-entries :
      (k : RpcService) (r : RpcResult T) (m : Multi T)
      (c : (Set.contains k (map key m.entries) ≡ true)
        ⊎ (Set.contains k (map key m.entries) ≡ false))
      → Set.contains k (map key m.entries) ≡ false
      → (m' : Multi T) × (added k r m c ≡ some m') × (m'.entries ≡ (k, r) ∷ m.entries)
  unfolding added
  added-entries k r m (inl h) e = absurd (ground (arith, h, e))
  added-entries k r m (inr h) e = (_, refl, refl)

  try_add-entries :
      (k : RpcService) (r : RpcResult T) (m : Multi T)
      → Set.contains k (map key m.entries) ≡ false
      → (m' : Multi T) × (try_add k r m ≡ some m') × (m'.entries ≡ (k, r) ∷ m.entries)
  unfolding try_add
  try_add-entries k r m e = added-entries k r m _ e

  -- A sequence without repeated services is built as it is.
  built-entries :
      (l : List (RpcService × RpcResult T))
      → Set.is_distinct (map key l) ≡ true
      → (built l).entries ≡ l
  unfolding built or_else empty Set.is_distinct
  built-entries [] h = refl
  built-entries ((k, r) ∷ l) h =
      let rest = built-entries l (ground (arith, h)) in
      let free : Set.contains k (map key (built l).entries) ≡ false =
        ap (λ x. Set.contains k (map key x)) rest ∙ ground (arith, h) in
      let (m', e, q) = try_add-entries k r (built l) free in
      ap (λ o. (or_else (built l) o).entries) e ∙ (q ∙ ap (λ x. (k, r) ∷ x) rest)

  pub held : RpcService → Multi T → Option (RpcResult T)
  held k m = Map.get k m.entries

  pub insert_once : RpcService → RpcResult T → Multi T → Exec (Multi T)
  insert_once k r m = expected (try_add k r m)

  pub insert_once-new :
      (k : RpcService) (r : RpcResult T) (m : Multi T)
      → held k m ≡ none
      → (m' : Multi T) × (insert_once k r m ≡ returns m')
        × (length m'.entries ≡ suc (length m.entries))
        × ((j : RpcService) → held j m' ≡ (if j =? k then some r else held j m))
  unfolding insert_once expected held Map.get
  insert_once-new k r m h =
      let (m', e, q) = try_add-entries k r m (contains-get k m.entries h) in
      (m', ap expected e, ap length q, λ j. ap (Map.get j) q)

module _ {T : Type 0} where
  pub as_errors : List (RpcService × RpcError) → List (RpcService × RpcResult T)
  as_errors = map (λ x. (x.0, err x.1))

  pub add_errors : List (RpcService × RpcError) → Multi T → Exec (Multi T)
  add_errors errors m = returns (built (as_errors errors ++ m.entries))

  Disjoint : List (RpcService × RpcError) → List (RpcService × RpcResult T) → Type 0
  Disjoint errors m =
      (k : RpcService) (e : RpcError) → Map.get k errors ≡ some e → Map.get k m ≡ none

  contains-joined :
      (k : RpcService) (errors : List (RpcService × RpcError)) (m : List (RpcService × RpcResult T))
      → Set.contains k (map key errors) ≡ false
      → Set.contains k (map key m) ≡ false
      → Set.contains k (map key (as_errors errors ++ m)) ≡ false
  unfolding as_errors
  contains-joined k [] m h e = e
  contains-joined k (x ∷ errors) m h e = ground (arith, h, contains-joined k errors m)

  joined-distinct :
      (errors : List (RpcService × RpcError)) (m : List (RpcService × RpcResult T))
      → Set.is_distinct (map key errors) ≡ true
      → Set.is_distinct (map key m) ≡ true
      → Disjoint errors m
      → Set.is_distinct (map key (as_errors errors ++ m)) ≡ true
  unfolding as_errors Set.is_distinct Disjoint Map.get
  joined-distinct [] m h d free = d
  joined-distinct ((k, e) ∷ errors) m h d free =
      let here = contains-get k m (free k e (ground (arith, =?_refl k))) in
      let absent : Set.contains k (map key errors) ≡ false = ground (arith, h) in
      let rest =
        joined-distinct errors m (ground (arith, h)) d
          (λ j x q. free j x (ground (arith, q, =?_iff j k, absent, get-contains k errors))) in
      ground (arith, rest, contains-joined k errors m absent here)

  get-errors :
      (k : RpcService) (errors : List (RpcService × RpcError)) (m : List (RpcService × RpcResult T))
      → Map.get k (as_errors errors ++ m) ≡ joined (Map.get k errors) (Map.get k m)
  unfolding as_errors Map.get
  get-errors k [] m = refl
  get-errors k ((j, e) ∷ errors) m = ground (arith, get-errors k errors m)

  pub add_errors-new :
      (errors : List (RpcService × RpcError)) (m : Multi T)
      → Set.is_distinct (map key errors) ≡ true
      → ((k : RpcService) (e : RpcError) → Map.get k errors ≡ some e → held k m ≡ none)
      → (m' : Multi T) × (add_errors errors m ≡ returns m')
        × (length m'.entries ≡ length m.entries + length errors)
        × ((j : RpcService) → held j m' ≡ joined (Map.get j errors) (held j m))
  unfolding add_errors held Disjoint as_errors
  add_errors-new errors m d free =
      let q =
        built-entries (as_errors errors ++ m.entries)
          (joined-distinct errors m.entries d m.distinct free) in
      let n : length (as_errors errors) ≡ length errors = length-map _ errors in
      (
        _,
        refl,
        omega (arith, ap length q, length-append (as_errors errors) m.entries, n),
        λ j. ap (Map.get j) q ∙ get-errors j errors m.entries,
      )

module _ {I O : Type 0} (f : RpcService → I → RpcResult O) where
  pub outcomes : List (RpcService × I) → List (RpcService × RpcResult O)
  outcomes = map (λ x. (x.0, f x.0 x.1))

  keys-outcomes : (l : List (RpcService × I)) → map key (outcomes l) ≡ map key l
  unfolding outcomes
  keys-outcomes [] = refl
  keys-outcomes (x ∷ l) = ap (λ ks. x.0 ∷ ks) (keys-outcomes l)

  get-outcomes :
      (k : RpcService) (l : List (RpcService × I))
      → Map.get k (outcomes l) ≡ answered (f k) (Map.get k l)
  unfolding outcomes Map.get
  get-outcomes k [] = refl
  get-outcomes k ((j, i) ∷ l) = ground (arith, get-outcomes k l, =?_iff k j)

  pub outcomes-built :
      (l : List (RpcService × I))
      → Set.is_distinct (map key l) ≡ true
      → (built (outcomes l)).entries ≡ outcomes l
  outcomes-built l d = built-entries (outcomes l) (ap Set.is_distinct (keys-outcomes l) ∙ d)

  pub outcomes-get :
      (l : List (RpcService × I)) (k : RpcService)
      → Set.is_distinct (map key l) ≡ true
      → held k (built (outcomes l)) ≡ answered (f k) (Map.get k l)
  unfolding held
  outcomes-get l k d = ap (Map.get k) (outcomes-built l d) ∙ get-outcomes k l

  pub outcomes-length :
      (l : List (RpcService × I))
      → Set.is_distinct (map key l) ≡ true
      → length (built (outcomes l)).entries ≡ length l
  unfolding outcomes
  outcomes-length l d = ap length (outcomes-built l d) ∙ length-map _ l

-- Code that traps still does with what follows it, and so does code that traps later.
fails :
    {A B : Type 0} (m : Exec A)
    → has_returned m ≡ false
    → (f : A → Exec B) → has_returned (m >>= f) ≡ false
fails (returns a) h f = cc h
fails (traps t) h f = refl

later :
    {A B : Type 0} (m : Exec A) (rest : Exec (List B)) (g : A → B)
    → has_returned rest ≡ false
    → has_returned (m >>= λ a. rest >>= λ bs. returns (g a ∷ bs)) ≡ false
later (returns a) rest g h = fails rest h (λ bs. returns (g a ∷ bs))
later (traps t) rest g h = refl

module _ {I O : Type 0} (f : RpcService → I → Exec (RpcResult O)) where
  -- The calls in order; one that panics ends them all.
  called : List (RpcService × I) → Exec (List (RpcService × RpcResult O))
  called [] = returns []
  called ((k, i) ∷ l) = do r ← f k i; rs ← called l; returns ((k, r) ∷ rs)

  pub parallel_call : List (RpcService × I) → Exec (Multi O)
  parallel_call l = do rs ← called l; returns (built rs)

  called-outcomes :
      (g : RpcService → I → RpcResult O) (l : List (RpcService × I))
      → Set.is_distinct (map key l) ≡ true
      → ((k : RpcService) (i : I) → Map.get k l ≡ some i → f k i ≡ returns (g k i))
      → called l ≡ returns (outcomes g l)
  unfolding called outcomes Set.is_distinct Map.get
  called-outcomes g [] d h = refl
  called-outcomes g ((k, i) ∷ l) d h =
      let absent : Set.contains k (map key l) ≡ false = ground (arith, d) in
      let here : f k i ≡ returns (g k i) = h k i (ground (arith, =?_refl k)) in
      let rest =
        called-outcomes g l (ground (arith, d))
          (λ j x e. h j x (ground (arith, e, =?_iff j k, absent, get-contains k l))) in
      rw here (rw rest refl)

  pub parallel_call-returns :
      (g : RpcService → I → RpcResult O) (l : List (RpcService × I))
      → Set.is_distinct (map key l) ≡ true
      → ((k : RpcService) (i : I) → Map.get k l ≡ some i → f k i ≡ returns (g k i))
      → (m : Multi O) × (parallel_call l ≡ returns m)
        × (length m.entries ≡ length l)
        × ((k : RpcService) → held k m ≡ answered (g k) (Map.get k l))
  unfolding parallel_call
  parallel_call-returns g l d h = (
    built (outcomes g l),
    rw (called-outcomes g l d h) refl,
    outcomes-length g l d,
    λ k. outcomes-get g l k d,
  )

  called-traps :
      (l : List (RpcService × I)) (k : RpcService) (i : I)
      → Map.get k l ≡ some i
      → has_returned (f k i) ≡ false
      → has_returned (called l) ≡ false
  unfolding called Map.get
  called-traps [] k i e h = cc e
  called-traps ((j, x) ∷ l) k i e h = elim (Bool-cases (k =? j)) [
    | inl t ↦
        let same : k ≡ j = (=?_iff k j).0 t in
        let this : x ≡ i = ground (arith, e, t) in fails (f j x) (cc (h, same, this)) (λ r. _)
    | inr n ↦ later (f j x) (called l) (λ r. (j, r)) (called-traps l k i (ground (arith, e, n)) h)
  ]

  pub parallel_call-traps :
      (l : List (RpcService × I)) (k : RpcService) (i : I)
      → Map.get k l ≡ some i
      → has_returned (f k i) ≡ false
      → has_returned (parallel_call l) ≡ false
  unfolding parallel_call
  parallel_call-traps l k i e h =
      fails (called l) (called-traps l k i e h) (λ rs. returns (built rs))

unfoldable pub multi_results : MultiLib
unfolding empty held Map.get
multi_results = record {
  MultiResults = Multi;
  default = empty;
  insert_once = insert_once;
  into_inner = λ m. (oks m.entries, errs m.entries);
  add_errors = add_errors;
  ok_results = λ m. oks m.entries;
  len = λ m. length m.entries;
  get = held;
  parallel_call = parallel_call;
  default_get = λ k. refl;
  default_len = refl;
  insert_once-new = insert_once-new;
  into_inner_get = λ m k. oks-get k m.entries m.distinct;
  into_inner-distinct = λ m. parts-distinct m.entries m.distinct;
  into_inner_len = λ m. parts-length m.entries;
  add_errors-new = add_errors-new;
  parallel_call-returns = parallel_call-returns;
  parallel_call-traps = parallel_call-traps;
}
