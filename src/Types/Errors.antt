-- ===== src/Types/Errors.antt =====
-- `SaltError` and `UnchainedTransition` of salt/src/types.rs.
use Prim.Native.String.{String}
use salt_optimizations.Prelude.{Option}
use salt_optimizations.Types.SaltKey.{SaltKey}
use salt_optimizations.Types.SaltValue.{SaltValue}

pub record UnchainedTransition : Type 0 where
  pub key : SaltKey
  pub expected : Option SaltValue
  pub actual : Option SaltValue

pub data SaltError : Type 0 where
  invalid_format : String → SaltError
  not_in_witness : String → SaltError
  unsupported_operation : String → SaltError
  unchained_transition : UnchainedTransition → SaltError
