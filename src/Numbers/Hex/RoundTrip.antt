-- ===== src/Numbers/Hex/RoundTrip.antt =====
-- Printing and reading hexadecimal texts (`evm_rpc_types/src/lib.rs`, `src/rpc_client/json/mod.rs`).
use evm_rpc_canister.Prelude.{
  ℕ, ◌/◌, ◌%◌, ◌<◌, ◌≡◌, ◌↔◌, refl, true, ◌==◌, List, [], ◌∷◌, ◌++◌, drop, Text, text, starts_with,
  Result, ok, err, map_ok, map_err, Bool-cases, arith, ap, subst, length,
}
use evm_rpc_canister.Numbers.{U8, Array}
use evm_rpc_canister.Numbers.Hex.{
  HexLibrary, hex_digit, Byte, HexByte, Hex20, Hex32, Hex256, Hex, byte_from, hex_byte_from,
  hex_to_string, hex_from_str, byte_from_hex, hex_byte_from_str, hex20_from_str, hex32_from_str,
  hex256_from_str, hex_bytes_from_str, bytes_array_from_str, into_byte, first_byte,
}

module _ (H : HexLibrary) where
  hex_from_str-prefixed :
      {D W : Type 0} (from_hex : Text → Result D Text) (wrap : D → W) (s : Text) (d : D)
      → from_hex s ≡ ok d
      → hex_from_str H from_hex wrap (text "0x" ++ s) ≡ ok (wrap d)
  unfolding hex_from_str starts_with text
  hex_from_str-prefixed from_hex wrap s d h = rw h refl

  byte_digits : (bs : List U8) → (length bs == 1) ≡ true → (x y : ℕ) × (H.encode bs ≡ x ∷ y ∷ [])
  byte_digits [] h = cc
  byte_digits (b ∷ []) h = (_, _, H.encode-byte b)
  byte_digits (b ∷ c ∷ bs) h = absurd (ground (arith, h))

  byte_from_hex-two :
      (s : Text) (x y : ℕ) (b : Byte)
      → s ≡ x ∷ y ∷ []
      → H.decode_to_slice 1 s ≡ ok b.bytes
      → byte_from_hex H s ≡ ok b
  unfolding byte_from_hex
  byte_from_hex-two s x y b e h = rw e (ap (map_ok (λ bytes. record { bytes = bytes })) (rw e at h))

  byte_from_hex-encode : (b : Byte) → byte_from_hex H (H.encode b.bytes.elements) ≡ ok b
  byte_from_hex-encode b =
      let d = byte_digits b.bytes.elements b.bytes.size in
      byte_from_hex-two _ d.0 d.1 b d.2 (H.decode_to_slice-encode 1 b.bytes)

  -- Every text that is printed for a byte, for 20, 32 or 256 bytes, or for any number of bytes is read
  -- as the same bytes.
  pub hex_from_str-hex_to_string :
      (b : HexByte) (address : Hex20) (hash : Hex32) (bloom : Hex256) (data_bytes : Hex)
      → (hex_byte_from_str H (hex_to_string H b.byte.bytes.elements) ≡ ok b)
        × (hex20_from_str H (hex_to_string H address.bytes.elements) ≡ ok address)
        × (hex32_from_str H (hex_to_string H hash.bytes.elements) ≡ ok hash)
        × (hex256_from_str H (hex_to_string H bloom.bytes.elements) ≡ ok bloom)
        × (hex_bytes_from_str H (hex_to_string H data_bytes.bytes) ≡ ok data_bytes)
  unfolding hex_byte_from_str hex20_from_str hex32_from_str hex256_from_str hex_bytes_from_str
      hex_to_string
  hex_from_str-hex_to_string b address hash bloom data_bytes = (
    hex_from_str-prefixed (byte_from_hex H) _ _ b.byte (byte_from_hex-encode b.byte),
    hex_from_str-prefixed (H.decode_to_slice 20) _ _ address.bytes
        (H.decode_to_slice-encode 20 address.bytes),
    hex_from_str-prefixed (H.decode_to_slice 32) _ _ hash.bytes
        (H.decode_to_slice-encode 32 hash.bytes),
    hex_from_str-prefixed (H.decode_to_slice 256) _ _ bloom.bytes
        (H.decode_to_slice-encode 256 bloom.bytes),
    hex_from_str-prefixed H.decode _ _ data_bytes.bytes (H.decode-encode data_bytes.bytes),
  )

  -- A byte below 16 is also read from its single digit, and from nothing else the byte read back is
  -- the given one.
  pub hex_byte_from_str-digit :
      (b : U8)
      → b.value < 16
      → hex_byte_from_str H (text "0x" ++ (hex_digit b.value ∷ [])) ≡ ok (hex_byte_from b)
  unfolding hex_byte_from_str hex_byte_from hex_from_str byte_from_hex byte_from starts_with text
      hex_digit
  hex_byte_from_str-digit b h =
      let bytes = (byte_from b).bytes in
      let high : hex_digit (b.value / 16) ≡ 48 = ground (arith, h) in
      let low : hex_digit (b.value % 16) ≡ hex_digit b.value = ap hex_digit (omega (arith, h)) in
      let digits : H.encode (b ∷ []) ≡ 48 ∷ hex_digit b.value ∷ [] =
        cc (H.encode-byte b, high, low) in
      let decoded : H.decode_to_slice 1 (48 ∷ hex_digit b.value ∷ []) ≡ ok bytes =
        subst (λ t. H.decode_to_slice 1 t ≡ ok bytes) digits (H.decode_to_slice-encode 1 bytes) in
      rw decoded refl

  abbrev as_hex32 : Array 32 → Hex32
  as_hex32 bytes = record { bytes = bytes }

  read_alike :
      (f g : Text → Text) (r : Result (Array 32) Text) (a : Array 32)
      → (map_err f (map_ok as_hex32 r) ≡ ok (record { bytes = a })) ↔ (map_err g r ≡ ok a)
  read_alike f g (ok d) a = ground arith
  read_alike f g (err e) a = ground arith

  -- A text is read as 32 bytes of the callers' interface exactly if it is read as the same 32 bytes of
  -- the JSON-RPC types.
  pub hex32_from_str_iff :
      (s : Text) (a : Array 32)
      → (hex32_from_str H s ≡ ok (record { bytes = a })) ↔ (bytes_array_from_str H 32 s ≡ ok a)
  unfolding hex32_from_str hex_from_str bytes_array_from_str
  hex32_from_str_iff s a = ground (
    arith,
    Bool-cases (starts_with s (text "0x")),
    read_alike _ _ (H.decode_to_slice 32 (drop 2 s)) a,
  )

  pub into_byte-byte_from : (b : U8) → into_byte (byte_from b) ≡ b
  unfolding into_byte byte_from first_byte
  into_byte-byte_from b = refl
