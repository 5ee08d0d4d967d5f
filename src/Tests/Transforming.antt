-- ===== src/Tests/Transforming.antt =====
-- Responses of two replicas, with formats that are plain sequences.
use mathlib.Core.List.{Permᴰ}
use evm_rpc_canister.Prelude.{
  ℕ, zero, suc, length, ap, ◌≡◌, refl, List, [], ◌∷◌, Option, none, some, Text, text, Result, ok,
  err, arith,
}
use evm_rpc_canister.Types.Service.{HttpHeader}
use evm_rpc_canister.Transform.{Codec, ItemCodec, Formats, log_entries, cleanup_response}
use evm_rpc_canister.Transform.Replicas.{cleanup_response-agrees}
use evm_rpc_canister.Tests.Strings.{ascii_lowercase, short_replies}

abbrev plain : Codec
plain = record { Reply = Text; from_slice = λ t. some t; to_string = λ t. t }

-- A body is the id and then one number for each log.
abbrev read_items : Text → Option (ℕ × Result (List ℕ) ℕ)
read_items [] = none
read_items (id ∷ items) = some (id, ok items)

abbrev write_items : ℕ × Result (List ℕ) ℕ → Text
write_items (id, ok items) = id ∷ items
write_items (id, err e) = id ∷ []

abbrev numbers : ItemCodec
numbers = record {
  ReplyId = ℕ;
  Item = ℕ;
  Error = ℕ;
  from_slice = read_items;
  to_string = write_items;
  to_vec = λ n. n ∷ [];
}

-- The first numbers of a text, which zeros follow
first : ℕ → Text → Text
first zero t = []
first (suc n) [] = 0 ∷ first n []
first (suc n) (c ∷ t) = c ∷ first n t

length-first : (n : ℕ) (t : Text) → length (first n t) ≡ n
unfolding first
length-first zero t = refl
length-first (suc n) [] = ap suc (length-first n [])
length-first (suc n) (c ∷ t) = ap suc (length-first n t)

abbrev first_32 : Text → Text
first_32 t = first 32 t

abbrev formats : Formats
formats = record {
  lowercase = ascii_lowercase;
  json = short_replies;
  blocks = plain;
  logs = numbers;
  receipts = plain;
  fee_histories = plain;
  sha256 = first_32;
  sha256_length = λ t. length-first 32 t;
  decode = λ context. some log_entries;
}

abbrev date : List HttpHeader
date = record { name = text "date"; value = text "today" } ∷ []

first_inj : (a b : ℕ) → first_32 (a ∷ []) ≡ first_32 (b ∷ []) → a ≡ b
unfolding first
first_inj a b e = ground (arith, e)

cleanup_response-agrees_example :
    cleanup_response formats (record {
      response = record { status = 200; headers = []; body = 7 ∷ 30 ∷ 20 ∷ [] };
      context = 1 ∷ [];
    })
    ≡ cleanup_response formats (record {
      response = record { status = 200; headers = date; body = 7 ∷ 20 ∷ 30 ∷ [] };
      context = 1 ∷ [];
    })
cleanup_response-agrees_example =
    cleanup_response-agrees formats 200 (1 ∷ []) (7 ∷ 30 ∷ 20 ∷ []) (7 ∷ 20 ∷ 30 ∷ []) [] date 7
      (30 ∷ 20 ∷ []) (20 ∷ 30 ∷ []) (omega arith) (omega arith) refl refl refl refl
      (Permᴰ.swap refl refl) (λ a b i j. first_inj a b)
