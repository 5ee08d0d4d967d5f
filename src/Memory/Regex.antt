-- ===== src/Memory/Regex.antt =====
-- Regular expressions (`RegexString` and `RegexSubstitution` of the library canlog, over the library
-- regex) are a parameter. An error of compilation is the text that it displays as.
use evm_rpc_canister.Prelude.{Option, Text, Result}

pub record RegexLib : Type 1 where
  pub Pattern : Type 0
  pub Compiled : Type 0
  pub compile : Pattern → Result Compiled Text
  pub replace_all : Compiled → Text → Text → Text

module _ (R : RegexLib) where
  pub record RegexSubstitution : Type 0 where
    pub pattern : R.Pattern
    pub replacement : Text

  -- `OverrideProvider` of `src/types/mod.rs` and of `evm_rpc_types/src/lifecycle/mod.rs`
  pub record OverrideProvider : Type 0 where
    pub override_url : Option RegexSubstitution
