-- ===== src/Tests/Platforms.antt =====
-- The libraries for numbers, addresses and hexadecimal texts, replaced by small functions.
use evm_rpc_canister.Prelude.{
  ℕ, zero, suc, ◌⊎◌, ◌-◌, ◌+◌, ◌*◌, ◌/◌, ◌%◌, ◌^◌, ◌≤◌, ◌<◌, ◌≡◌, refl, ltb, ◌==◌, true, false,
  List, [], ◌∷◌, length, Text, text, Result, ok, err, arith, if◌then◌else◌, ap, ◌∙◌, Bool-cases,
  inl, inr, ◌>>=◌,
}
use evm_rpc_canister.Numbers.{
  U8, U8-eq, Array, Array-eq, BigUint, Ethnum, Platform, value_from, be_value,
}
use evm_rpc_canister.Numbers.Positional.{be_value-fits}
use evm_rpc_canister.Numbers.Nat256.{Nat256, Nat256-eq, nat-below, fits_of, into_be_bytes-value}
use evm_rpc_canister.Numbers.Hex.{HexLibrary, hex_digit}

pub byte : ℕ → U8
byte n = record { value = n % 256; below = ground arith }

-- The bytes of `n` in front of `acc`, as few as possible; `fuel` is above `n`.
pub bytes_from : ℕ → ℕ → List U8 → List U8
bytes_from zero n acc = acc
bytes_from (suc fuel) n acc =
    let more = bytes_from fuel (n / 256) (byte n ∷ acc) in if ltb n 256 then byte n ∷ acc else more

pub bytes_from_value :
    (fuel n : ℕ) (acc : List U8)
    → n < fuel
    → value_from 0 (bytes_from fuel n acc) ≡ value_from n acc
unfolding bytes_from value_from byte
bytes_from_value zero n acc h = absurd (omega (arith, h))
bytes_from_value (suc fuel) n acc h = elim (Bool-cases (ltb n 256)) [
  | inl e ↦
      let low : n % 256 ≡ n = ground (arith, e) in
      rw e (ap (λ m. value_from m acc) (omega (arith, low)))
  | inr e ↦
      let whole : n / 256 * 256 + n % 256 ≡ n = omega arith in
      let smaller : n / 256 < fuel = ground (arith, e, h) in
      rw e
        (bytes_from_value fuel (n / 256) (byte n ∷ acc) smaller ∙ ap (λ m. value_from m acc) whole)
]

pub bytes_from-fewest :
    (fuel n k : ℕ) (acc : List U8)
    → n < fuel
    → n < 256 ^ suc k
    → length (bytes_from fuel n acc) ≤ suc k + length acc
unfolding bytes_from
bytes_from-fewest zero n k acc h e = absurd (omega (arith, h))
bytes_from-fewest (suc fuel) n zero acc h e = ground (arith, h, e)
bytes_from-fewest (suc fuel) n (suc k) acc h e =
    ground (arith, h, e, bytes_from-fewest fuel (n / 256) k (byte n ∷ acc))

pub to_be : ℕ → List U8
to_be n = bytes_from (suc n) n []

pub to_be-value : (n : ℕ) → be_value (to_be n) ≡ n
unfolding to_be value_from
to_be-value n = bytes_from_value (suc n) n [] (omega arith)

pub to_be-fewest : (n k : ℕ) → n < 256 ^ suc k → length (to_be n) ≤ suc k
unfolding to_be
to_be-fewest n k h = omega (arith, bytes_from-fewest (suc n) n k [] (omega arith) h)

-- num_bigint's bytes; only the number of those from the lowest is used.
unfoldable pub big_uint : BigUint
unfolding to_be to_be-value to_be-fewest
big_uint = record {
  to_bytes_be = to_be;
  to_bytes_le = to_be;
  from_bytes_be = be_value;
  to_bytes_be-value = to_be-value;
  to_bytes_be-fewest = to_be-fewest;
  to_bytes_le-length = λ n. refl;
  from_bytes_be_value = λ bs. refl;
}

pub of_bytes : Array 32 → Nat256
of_bytes a = record {
  nat = be_value a.elements;
  fits = fits_of (be_value a.elements) (be_value-fits a.elements (ground (arith, a.size)));
}

pub word_fits : (n : ℕ) → n % 2 ^ 128 < 2 ^ 256
word_fits n = omega arith

pub of_word : ℕ → Nat256
of_word n = record { nat = n % 2 ^ 128; fits = fits_of (n % 2 ^ 128) (word_fits n) }

pub to_bytes : Nat256 → Array 32
to_bytes v = (into_be_bytes-value big_uint v).0

-- 256-bit numbers, kept as numbers with their bound
unfoldable pub u256 : Ethnum
unfolding of_bytes of_word to_bytes
u256 = record {
  U256 = Nat256;
  value = λ v. v.nat;
  value-inj = λ a b e. Nat256-eq e;
  value-below = nat-below;
  from_be_bytes = of_bytes;
  to_be_bytes = to_bytes;
  new = of_word;
  from_be_bytes_value = λ bs. refl;
  new_value = λ n h. omega (arith, h);
  to_be_bytes_value = λ v. (into_be_bytes-value big_uint v).2;
}

-- Addresses are their bytes, and numbers stand for those with a fraction.
unfoldable pub platform : Platform
unfolding big_uint u256
platform = record {
  big_uint = big_uint;
  ethnum = u256;
  Address = Array 20;
  address_new = λ a. a;
  address_into_bytes = λ a. a;
  address_into_bytes-address_new = λ a. refl;
  address_new-address_into_bytes = λ a. refl;
  F64 = ℕ;
}

-- The number of a digit
pub digit_value : ℕ → ℕ
digit_value c = if ltb c 58 then c - 48 else c - 87

pub encode : List U8 → Text
encode [] = []
encode (b ∷ bs) = hex_digit (b.value / 16) ∷ hex_digit (b.value % 16) ∷ encode bs

-- Other characters than digits are not told apart from digits.
pub decode : Text → Result (List U8) Text
decode [] = ok []
decode (c ∷ []) = err (text "Odd number of digits")
decode (c ∷ d ∷ s) = decode s >>= λ bs. ok (byte (digit_value c * 16 + digit_value d) ∷ bs)

decode_digits :
    (b : U8)
    → byte (digit_value (hex_digit (b.value / 16)) * 16 + digit_value (hex_digit (b.value % 16)))
      ≡ b
unfolding digit_value hex_digit byte
decode_digits b = U8-eq (ground (arith, b.below))

pub decode-encode : (bs : List U8) → decode (encode bs) ≡ ok bs
unfolding decode encode
decode-encode [] = refl
decode-encode (b ∷ bs) = rw (decode-encode bs) (ap (λ c. ok (c ∷ bs)) (decode_digits b))

pub sized :
    (n : ℕ) (bs : List U8)
    → ((length bs == n) ≡ true) ⊎ ((length bs == n) ≡ false)
    → Result (Array n) Text
sized n bs (inl h) = ok (record { elements = bs; size = h })
sized n bs (inr h) = err (text "Invalid string length")

pub decode_to_slice : (n : ℕ) → Text → Result (Array n) Text
decode_to_slice n s = decode s >>= λ bs. sized n bs (Bool-cases (length bs == n))

sized-array :
    (n : ℕ) (a : Array n)
    (c : ((length a.elements == n) ≡ true) ⊎ ((length a.elements == n) ≡ false))
    → sized n a.elements c ≡ ok a
unfolding sized
sized-array n a (inl h) = ap ok (Array-eq refl)
sized-array n a (inr h) = cc (h, a.size)

pub decode_to_slice-encode : (n : ℕ) (a : Array n) → decode_to_slice n (encode a.elements) ≡ ok a
unfolding decode_to_slice
decode_to_slice-encode n a = rw (decode-encode a.elements) (sized-array n a _)

unfoldable pub hex_library : HexLibrary
unfolding encode decode decode_to_slice
hex_library = record {
  encode = encode;
  encode_upper = encode;
  decode = decode;
  decode_to_slice = decode_to_slice;
  encode-byte = λ b. refl;
  decode-encode = decode-encode;
  decode_to_slice-encode = decode_to_slice-encode;
}
