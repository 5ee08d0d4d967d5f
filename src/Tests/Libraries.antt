-- ===== src/Tests/Libraries.antt =====
-- A usage record without expiry, and regular expressions that are plain texts.
use Prim.Native.Nat.{Ordering}
use Prim.Native.Nat.Ordering.{lt, eq, gt}
use mathlib.Core.List.{Permᴰ}
use mathlib.Core.List.Permᴰ
use evm_rpc_canister.Ord.{◌=?◌}
use evm_rpc_canister.Prelude.{
  ℕ, suc, ◌==◌, ◌≡◌, ◌≢◌, List, [], ◌∷◌, Option, none, some, Text, text, Result, ok, err, is_empty,
  replace, if◌then◌else◌, All, refl, ◌⊎◌, inl, inr, subst, sym,
}
use evm_rpc_canister.Providers.Defs.{SupportedRpcService, supported_ord}
use evm_rpc_canister.Providers.Usage.{TimedSizedMap, IsSortedBy, IsOrder}
use evm_rpc_canister.Memory.{Externals}
use evm_rpc_canister.Memory.Regex.{RegexLib}

abbrev pub Counts : Type 0
Counts = SupportedRpcService → ℕ

unfoldable pub answers_of : Counts → SupportedRpcService → Option ℕ
answers_of m s = if m s == 0 then none else some (m s)

module _ (value : SupportedRpcService → Option ℕ) (cmp : Option ℕ → Option ℕ → Ordering) where
  unfoldable pub place : SupportedRpcService → List SupportedRpcService → List SupportedRpcService
  place s [] = s ∷ []
  place s (t ∷ l) = elim (cmp (value s) (value t)) [ gt ↦ t ∷ place s l | _ ↦ s ∷ t ∷ l ]

  unfoldable pub sorted : List SupportedRpcService → List SupportedRpcService
  unfolding place
  sorted [] = []
  sorted (s ∷ l) = place s (sorted l)

  Ordering-cases : (o : Ordering) → (o ≡ gt) ⊎ (o ≢ gt)
  Ordering-cases lt = inr (λ e. cc)
  Ordering-cases eq = inr (λ e. cc)
  Ordering-cases gt = inl refl

  -- A predicate holds of what is placed in front.
  placed :
      (P : List SupportedRpcService → Type 0) (s t : SupportedRpcService)
      (l : List SupportedRpcService) (o : Ordering)
      → o ≢ gt
      → P (s ∷ t ∷ l)
      → P (elim o [ gt ↦ t ∷ place s l | _ ↦ s ∷ t ∷ l ])
  placed P s t l lt n h = h
  placed P s t l eq n h = h
  placed P s t l gt n h = absurd (n refl)

  place-perm : (s : SupportedRpcService) (l : List SupportedRpcService) → Permᴰ (place s l) (s ∷ l)
  unfolding place
  place-perm s [] = Permᴰ.refl (s ∷ [])
  place-perm s (t ∷ l) =
      elim (cmp (value s) (value t))
        as (λ o. Permᴰ (elim o [ gt ↦ t ∷ place s l | _ ↦ s ∷ t ∷ l ]) (s ∷ t ∷ l)) [
          | lt ↦ Permᴰ.refl (s ∷ t ∷ l)
          | eq ↦ Permᴰ.refl (s ∷ t ∷ l)
          | gt ↦ Permᴰ.trans (Permᴰ.cons refl (place-perm s l)) (Permᴰ.swap refl refl)
        ]

  pub sorted-perm : (l : List SupportedRpcService) → Permᴰ (sorted l) l
  unfolding sorted
  sorted-perm [] = Permᴰ.refl []
  sorted-perm (s ∷ l) = Permᴰ.trans (place-perm s (sorted l)) (Permᴰ.cons refl (sorted-perm l))

  abbrev pub Before : SupportedRpcService → SupportedRpcService → Type 0
  Before s t = cmp (value s) (value t) ≢ gt

  Before-All :
      (s t : SupportedRpcService) (l : List SupportedRpcService)
      → IsOrder cmp
      → Before s t
      → All (Before t) l
      → All (Before s) l
  Before-All s t [] o h k = tt
  Before-All s t (u ∷ l) o h k = (o.1 (value s) (value t) (value u) h k.0, Before-All s t l o h k.1)

  All-place :
      (s u : SupportedRpcService) (l : List SupportedRpcService)
      → Before u s
      → All (Before u) l
      → All (Before u) (place s l)
  unfolding place
  All-place s u [] h k = (h, tt)
  All-place s u (t ∷ l) h k =
      elim (cmp (value s) (value t))
        as (λ o. All (Before u) (elim o [ gt ↦ t ∷ place s l | _ ↦ s ∷ t ∷ l ])) [
          | lt ↦ (h, k)
          | eq ↦ (h, k)
          | gt ↦ (k.0, All-place s u l h k.1)
        ]

  place-sorted :
      (s : SupportedRpcService) (l : List SupportedRpcService)
      → IsOrder cmp
      → IsSortedBy Before l
      → IsSortedBy Before (place s l)
  unfolding place
  place-sorted s [] o h = (tt, tt)
  place-sorted s (t ∷ l) o h = elim (Ordering-cases (cmp (value s) (value t))) [
    | inl e ↦
        subst (λ x. IsSortedBy Before (elim x [ gt ↦ t ∷ place s l | _ ↦ s ∷ t ∷ l ])) (sym e)
          (All-place s t l (o.0 (value s) (value t) e) h.0, place-sorted s l o h.1)
    | inr n ↦
        placed (IsSortedBy Before) s t l (cmp (value s) (value t)) n
          ((n, Before-All s t l o n h.0), h)
  ]

  pub sorted-sorted : (l : List SupportedRpcService) → IsOrder cmp → IsSortedBy Before (sorted l)
  unfolding sorted
  sorted-sorted [] o = tt
  sorted-sorted (s ∷ l) o = place-sorted s (sorted l) o (sorted-sorted l o)

abbrev pub counting_map : TimedSizedMap
counting_map = record {
  Map = Counts;
  new = λ age size. λ s. 0;
  insert_evict = λ m now s. λ t. if t =? s then suc (m t) else m t;
  evict_expired = λ m services now. m;
  len = answers_of;
  sort_keys_by = λ m keys cmp. sorted (answers_of m) cmp keys;
  sort_keys_by-perm = λ m keys cmp. sorted-perm (answers_of m) cmp keys;
  sort_keys_by-sorted = λ m keys cmp o. sorted-sorted (answers_of m) cmp keys o;
}

unfoldable pub compile_text : Text → Result Text Text
compile_text p = if is_empty p then err (text "empty pattern") else ok p

abbrev pub plain_texts : RegexLib
plain_texts = record {
  Pattern = Text;
  Compiled = Text;
  compile = compile_text;
  replace_all = λ p url replacement. replace url p replacement;
}

abbrev pub externals : Externals
externals = record {
  usage_map = counting_map;
  regex = plain_texts;
  LogFilter = ℕ;
  default_log_filter = 0;
}
