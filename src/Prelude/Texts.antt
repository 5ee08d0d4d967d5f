-- ===== src/Prelude/Texts.antt =====
-- A Rust `String` or `str` as the sequence of its UTF-8 bytes, with the `str` methods in use.
use Prim.Native.Nat.{ℕ, zero, suc, ◌+◌, ◌-◌, ◌/◌, ◌%◌}
use Prim.Native.Char.{code}
use Prim.Native.String.{String}
use mathlib.Core.Bool.{Bool, true, false, ◌&&◌, ◌||◌}
use mathlib.Core.List.{List, [], ◌∷◌, ◌++◌}
use evm_rpc_canister.Prelude.Tests.{ltb, ◌==◌, if◌then◌else◌}
use evm_rpc_canister.Prelude.Lists.{length}

abbrev pub Text : Type 0
Text = List ℕ

-- The bytes of an ASCII literal.
unfoldable pub text : String → Text
text String.[] = []
text (String.◌∷◌ c s) = code c ∷ text s

-- `str::starts_with`
unfoldable pub starts_with : Text → Text → Bool
starts_with s [] = true
starts_with [] (p ∷ ps) = false
starts_with (c ∷ s) (p ∷ ps) = (c == p) && starts_with s ps

-- `str::contains` for a text pattern
unfoldable pub contains : Text → Text → Bool
contains [] p = starts_with [] p
contains (c ∷ s) p = starts_with (c ∷ s) p || contains s p

-- `str::contains` for a character of one byte
unfoldable pub contains_byte : Text → ℕ → Bool
contains_byte [] c = false
contains_byte (x ∷ xs) c = (x == c) || contains_byte xs c

-- `str::replace` for a non-empty pattern `from`: `skip` counts the bytes of a match that are still
-- to be passed over, so matches do not overlap.
unfoldable pub replace_from : ℕ → Text → Text → Text → Text
replace_from skip [] from to = []
replace_from (suc k) (c ∷ s) from to = replace_from k s from to
replace_from zero (c ∷ s) from to =
    let matched = to ++ replace_from (length from - 1) s from to in
    let kept = c ∷ replace_from zero s from to in if starts_with (c ∷ s) from then matched else kept

unfoldable pub replace : Text → Text → Text → Text
unfolding replace_from starts_with
replace s from to = replace_from zero s from to

unfoldable pub digit : ℕ → ℕ
digit n = 48 + n % 10

-- The decimal digits of `n`; `fuel` is above the number of digits.
unfoldable pub decimal : ℕ → ℕ → Text → Text
unfolding digit
decimal zero n acc = acc
decimal (suc fuel) n acc =
    let more = decimal fuel (n / 10) (digit n ∷ acc) in if ltb n 10 then digit n ∷ acc else more

-- `ToString` of an unsigned integer: a number has fewer digits than its successor counts.
unfoldable pub show : ℕ → Text
unfolding decimal digit
show n = decimal (suc n) n []
