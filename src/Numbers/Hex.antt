-- ===== src/Numbers/Hex.antt =====
-- Hexadecimal texts: `impl_hex_string` and `Byte` of `evm_rpc_types/src/lib.rs`, and `bytes_array` of
-- `src/rpc_client/json/mod.rs`. The library hex encodes and decodes: a parameter.
pub mod RoundTrip
use evm_rpc_canister.Prelude.{
  ℕ, ◌+◌, ◌/◌, ◌%◌, ◌≡◌, refl, true, length, ◌==◌, ltb, List, [], ◌∷◌, ◌++◌, drop, Text, text,
  starts_with, Result, ok, err, map_ok, map_err, if◌then◌else◌,
}
use evm_rpc_canister.Numbers.{U8, Array}

-- The digit of a number below 16, in lower case
unfoldable pub hex_digit : ℕ → ℕ
hex_digit n = if ltb n 10 then 48 + n else 87 + n

-- The library hex: errors are the texts that they are shown as. `from_hex` of an array is
-- `decode_to_slice` into one of that size; the two digits of a byte follow each other.
pub record HexLibrary : Type 0 where
  pub encode : List U8 → Text
  pub encode_upper : List U8 → Text
  pub decode : Text → Result (List U8) Text
  pub decode_to_slice : (n : ℕ) → Text → Result (Array n) Text
  pub encode-byte :
      (b : U8) → encode (b ∷ []) ≡ hex_digit (b.value / 16) ∷ hex_digit (b.value % 16) ∷ []
  pub decode-encode : (bs : List U8) → decode (encode bs) ≡ ok bs
  pub decode_to_slice-encode : (n : ℕ) (a : Array n) → decode_to_slice n (encode a.elements) ≡ ok a

-- `Byte` wraps `[u8; 1]`.
pub record Byte : Type 0 where
  pub bytes : Array 1

pub record HexByte : Type 0 where
  pub byte : Byte

pub record Hex20 : Type 0 where
  pub bytes : Array 20

pub record Hex32 : Type 0 where
  pub bytes : Array 32

pub record Hex256 : Type 0 where
  pub bytes : Array 256

pub record Hex : Type 0 where
  pub bytes : List U8

-- `From<u8> for Byte`
unfoldable pub byte_from : U8 → Byte
byte_from value = record { bytes = record { elements = value ∷ []; size = refl } }

-- `Byte::into_byte`: an array of one byte has a first.
unfoldable pub first_byte : (bs : List U8) → (length bs == 1) ≡ true → U8
first_byte [] h = cc
first_byte (b ∷ bs) h = b

unfoldable pub into_byte : Byte → U8
unfolding first_byte
into_byte b = first_byte b.bytes.elements b.bytes.size

unfoldable pub hex_byte_from : U8 → HexByte
unfolding byte_from
hex_byte_from value = record { byte = byte_from value }

module _ (H : HexLibrary) where
  -- `Display` of `impl_hex_string` and of `bytes_array`
  unfoldable pub hex_to_string : List U8 → Text
  unfolding text
  hex_to_string bytes = text "0x" ++ H.encode bytes

  -- `UpperHex` of `bytes_array`
  unfoldable pub upper_hex : List U8 → Text
  unfolding text
  upper_hex bytes = text "0x" ++ H.encode_upper bytes

  -- `FromStr` of `impl_hex_string`, by how the data are decoded and wrapped
  unfoldable pub hex_from_str :
      {D W : Type 0} → (Text → Result D Text) → (D → W) → Text → Result W Text
  unfolding text starts_with
  hex_from_str from_hex wrap s =
      if starts_with s (text "0x")
      then map_err (λ e. text "Invalid Ethereum hex string: " ++ e)
          (map_ok wrap (from_hex (drop 2 s)))
      else err (text "Ethereum hex string doesn't start with 0x")

  -- `FromHex for Byte`: a single digit stands for a byte.
  unfoldable pub byte_from_hex : Text → Result Byte Text
  byte_from_hex (a ∷ []) =
      map_ok (λ bytes. record { bytes = bytes }) (H.decode_to_slice 1 (48 ∷ a ∷ []))
  byte_from_hex h = map_ok (λ bytes. record { bytes = bytes }) (H.decode_to_slice 1 h)

  unfoldable pub hex_byte_from_str : Text → Result HexByte Text
  unfolding hex_from_str byte_from_hex
  hex_byte_from_str = hex_from_str byte_from_hex (λ byte. record { byte = byte })

  unfoldable pub hex20_from_str : Text → Result Hex20 Text
  unfolding hex_from_str
  hex20_from_str = hex_from_str (H.decode_to_slice 20) (λ bytes. record { bytes = bytes })

  unfoldable pub hex32_from_str : Text → Result Hex32 Text
  unfolding hex_from_str
  hex32_from_str = hex_from_str (H.decode_to_slice 32) (λ bytes. record { bytes = bytes })

  unfoldable pub hex256_from_str : Text → Result Hex256 Text
  unfolding hex_from_str
  hex256_from_str = hex_from_str (H.decode_to_slice 256) (λ bytes. record { bytes = bytes })

  -- `Hex`, which has any number of bytes
  unfoldable pub hex_bytes_from_str : Text → Result Hex Text
  unfolding hex_from_str
  hex_bytes_from_str = hex_from_str H.decode (λ bytes. record { bytes = bytes })

  -- `FromStr` of `bytes_array`
  unfoldable pub bytes_array_from_str : (n : ℕ) → Text → Result (Array n) Text
  unfolding text starts_with
  bytes_array_from_str n s =
      if starts_with s (text "0x")
      then map_err (λ e. text "failed to decode hash from hex: " ++ e)
          (H.decode_to_slice n (drop 2 s))
      else err (text "Ethereum hex string doesn't start with 0x")
