-- ===== src/Memory/Principals.antt =====
-- `set_api_key_principals` and `is_api_key_principal` of `src/memory.rs`.
use evm_rpc_canister.Ord.{◌=?◌, =?_iff}
use evm_rpc_canister.Ord.Instances.{nat_ord, list_ord}
use evm_rpc_canister.BTree.Set.{contains}
use mathlib.Core.List.{append-nil, append_assoc}
use evm_rpc_canister.Prelude.{
  ℕ, zero, suc, ◌≤◌, ◌≡◌, ◌∙◌, refl, ap, sym, List, [], ◌∷◌, ◌++◌, any, length, arith,
}
use evm_rpc_canister.Memory.{
  Principal, Externals, State, drop_last, pop_all, push_all, is_api_key_principal,
  set_api_key_principals,
}

length-drop_last : (p : Principal) (l : List Principal) → length (drop_last (p ∷ l)) ≡ length l
length-drop_last p [] = refl
length-drop_last p (q ∷ l) = ap suc (length-drop_last q l)

-- As many rounds as there are principals empty the vector.
pop_all-nil : (fuel : ℕ) (l : List Principal) → length l ≤ fuel → pop_all fuel l ≡ []
unfolding pop_all
pop_all-nil zero [] h = refl
pop_all-nil zero (p ∷ l) h = absurd (omega arith)
pop_all-nil (suc fuel) [] h = refl
pop_all-nil (suc fuel) (p ∷ l) h =
    pop_all-nil fuel (drop_last (p ∷ l)) (omega (arith, length-drop_last p l))

push_all-append : (l ps : List Principal) → push_all l ps ≡ l ++ ps
unfolding push_all
push_all-append l [] = rw append-nil
push_all-append l (p ∷ ps) = push_all-append (l ++ (p ∷ [])) ps ∙ append_assoc l (p ∷ []) ps

pub any-contains : (p : Principal) (l : List Principal) → any (λ q. q =? p) l ≡ contains p l
any-contains p [] = refl
any-contains p (q ∷ l) = ground (arith, any-contains p l, =?_iff p q, =?_iff q p)

module _ {X : Externals} (s : State X) (new_principals : List Principal) where
  pub set_api_key_principals-eq :
      (set_api_key_principals s new_principals).manage_api_keys ≡ new_principals
  unfolding set_api_key_principals
  set_api_key_principals-eq =
      ap (λ l. push_all l new_principals)
        (pop_all-nil (length s.manage_api_keys) s.manage_api_keys (omega arith))
      ∙ push_all-append [] new_principals

  pub set_api_key_principals_lem :
      set_api_key_principals s new_principals ≡ record s { manage_api_keys = new_principals }
  unfolding set_api_key_principals
  set_api_key_principals_lem = ap (λ l. record s { manage_api_keys = l }) set_api_key_principals-eq

  -- After `set_api_key_principals` exactly the new principals are accepted, whoever was before.
  pub is_api_key_principal-set :
      (p : Principal)
      → is_api_key_principal (set_api_key_principals s new_principals) p ≡ contains p new_principals
  unfolding is_api_key_principal
  is_api_key_principal-set p =
      ap (any (λ q. q =? p)) set_api_key_principals-eq ∙ any-contains p new_principals

  -- The loop that empties the vector ends: as many rounds as there are principals, or more, leave
  -- the same state, in which exactly the new principals are accepted, whoever was before.
  pub set_api_key_principals-terminates :
      (rounds : ℕ)
      → length s.manage_api_keys ≤ rounds
      → (set_api_key_principals s new_principals ≡ record s {
        manage_api_keys = push_all (pop_all rounds s.manage_api_keys) new_principals;
      })
        × ((p : Principal)
            → is_api_key_principal (set_api_key_principals s new_principals) p
              ≡ contains p new_principals)
  set_api_key_principals-terminates rounds h =
      let emptied : push_all (pop_all rounds s.manage_api_keys) new_principals ≡ new_principals =
        ap (λ l. push_all l new_principals) (pop_all-nil rounds s.manage_api_keys h)
        ∙ push_all-append [] new_principals in
      (
        set_api_key_principals_lem ∙ sym (ap (λ l. record s { manage_api_keys = l }) emptied),
        is_api_key_principal-set,
      )
