-- ===== src/Admin/Stored.antt =====
-- The API keys that the canister stores, as bytes (`src/types/mod.rs` and `src/validate.rs`).
use evm_rpc_canister.Prelude.{
  ℕ, ◌<◌, ◌≤◌, ◌≡◌, refl, ap, subst, true, false, not, [], ◌∷◌, Option, some, none, Text, text,
  length, any, All, contains_byte, all, ltb, ok, arith,
}
use evm_rpc_canister.Prelude.Exec.{returns, ◌>>=◌}
use evm_rpc_canister.Constants.{valid_api_key_chars}
use evm_rpc_canister.Validate.{ApiKey, IsValidKey, validate_api_key}
use evm_rpc_canister.Memory.{Externals, State, get_api_key}
use evm_rpc_canister.Memory.Storable.{
  StableStrings, api_key_max_size, api_key_to_bytes, api_key_from_bytes,
}
use evm_rpc_canister.Admin.Reach.{Reach, IsSafeKey, Reach-IsSafe}

all-contains_byte :
    (c : ℕ) (chars : Text)
    → all (λ d. ltb d 128) chars ≡ true
    → contains_byte chars c ≡ true
    → c < 128
unfolding contains_byte
all-contains_byte c [] h k = cc k
all-contains_byte c (d ∷ chars) h k = ground (arith, all-contains_byte c chars)

chars_are_ascii : all (λ d. ltb d 128) valid_api_key_chars ≡ true
unfolding valid_api_key_chars text
chars_are_ascii = refl

ascii :
    (s : Text)
    → any (λ c. not (contains_byte valid_api_key_chars c)) s ≡ false
    → All (λ c. c < 128) s
ascii [] h = tt
ascii (c ∷ s) h = (
  all-contains_byte c valid_api_key_chars chars_are_ascii (ground (arith, h)),
  ascii s (ground (arith, h)),
)

-- A valid key is short and of ASCII characters.
valid_key :
    (s : Text)
    → validate_api_key s ≡ ok tt
    → (length s ≤ 200) × (any (λ c. not (contains_byte valid_api_key_chars c)) s ≡ false)
unfolding validate_api_key
valid_key s h = ground (arith, h)

-- A key that is safe to have is valid.
safe-valid : (id : ℕ) (o : Option ApiKey) (k : ApiKey) → IsSafeKey id o → o ≡ some k → IsValidKey k
safe-valid id none k h e = cc e
safe-valid id (some j) k h e = (subst (IsSafeKey id) e h).0

-- In every state that the canister can be in, each API key takes at most the 512 bytes that the
-- stable map has for it, and is read from these bytes as it was written, without a panic.
pub Reach-stored_key :
    {X : Externals} (S : StableStrings) {s : State X}
    → Reach X s
    → (id : ℕ) (k : ApiKey) → get_api_key s id ≡ some k
    → (length (api_key_to_bytes k) ≤ api_key_max_size)
      × (api_key_from_bytes S (api_key_to_bytes k) ≡ returns k)
unfolding api_key_to_bytes api_key_from_bytes
Reach-stored_key S {s} r id k e =
    let safe = (Reach-IsSafe r).keys id in
    let valid = valid_key k.read (safe-valid id (get_api_key s id) k safe e) in
    (
      omega (arith, valid.0),
      ap (λ m. m >>= λ t. returns (record { read = t }))
          (S.string_from_bytes-ascii k.read (ascii k.read valid.1)),
    )
