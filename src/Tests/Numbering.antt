-- ===== src/Tests/Numbering.antt =====
-- Numbers and hexadecimal texts that are converted and read back.
use evm_rpc_canister.Prelude.{◌≡◌, refl, List, [], ◌∷◌, ok}
use evm_rpc_canister.Prelude.Exec.{returns, ◌>>=◌}
use evm_rpc_canister.Numbers.{U8, Array}
use evm_rpc_canister.Numbers.Nat256.{
  Nat256, into_be_bytes, from_be_bytes, from_be_bytes-into_be_bytes,
}
use evm_rpc_canister.Numbers.Hex.{
  hex_byte_from_str, hex20_from_str, hex32_from_str, hex256_from_str, hex_bytes_from_str,
  hex_to_string, Hex20, Hex32, Hex256, Hex, hex_byte_from,
}
use evm_rpc_canister.Numbers.Hex.RoundTrip.{hex_from_str-hex_to_string}
use evm_rpc_canister.Tests.Platforms.{big_uint, hex_library}

abbrev pub small : Nat256
small = record { nat = 70_000; fits = refl }

abbrev pub five : U8
five = record { value = 5; below = refl }

-- Sixteen bytes, and arrays made of them
abbrev pub sixteen : List U8 → List U8
sixteen rest =
    five ∷ five ∷ five ∷ five ∷ five ∷ five ∷ five ∷ five ∷ five ∷ five ∷ five ∷ five ∷ five ∷ five
    ∷ five ∷ five ∷ rest

abbrev pub fives : Array 32
fives = record { elements = sixteen (sixteen []); size = refl }

abbrev pub hash : Hex32
hash = record { bytes = fives }

abbrev pub address : Hex20
address = record {
  bytes = record { elements = five ∷ five ∷ five ∷ five ∷ sixteen []; size = refl };
}

abbrev pub sixty_four : List U8 → List U8
sixty_four rest = sixteen (sixteen (sixteen (sixteen rest)))

abbrev pub bloom : Hex256
bloom = record {
  bytes = record { elements = sixty_four (sixty_four (sixty_four (sixty_four []))); size = refl };
}

abbrev pub empty : Hex
empty = record { bytes = [] }

from_be_bytes-into_be_bytes_example :
    ((into_be_bytes big_uint small >>= from_be_bytes big_uint) ≡ returns small)
    × ((from_be_bytes big_uint fives >>= into_be_bytes big_uint) ≡ returns fives)
from_be_bytes-into_be_bytes_example = from_be_bytes-into_be_bytes big_uint small fives

hex_from_str-hex_to_string_example :
    (hex_byte_from_str hex_library (hex_to_string hex_library (five ∷ []))
      ≡ ok (hex_byte_from five))
    × (hex20_from_str hex_library (hex_to_string hex_library address.bytes.elements) ≡ ok address)
    × (hex32_from_str hex_library (hex_to_string hex_library fives.elements) ≡ ok hash)
    × (hex256_from_str hex_library (hex_to_string hex_library bloom.bytes.elements) ≡ ok bloom)
    × (hex_bytes_from_str hex_library (hex_to_string hex_library []) ≡ ok empty)
unfolding hex_byte_from
hex_from_str-hex_to_string_example =
    hex_from_str-hex_to_string hex_library (hex_byte_from five) address hash bloom empty
