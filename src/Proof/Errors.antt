-- ===== src/Proof/Errors.antt =====
-- `ProofError` of salt/src/proof/mod.rs. Of a formatted reason, the fixed text is kept.
use Prim.Native.String.{String}
use salt_optimizations.Prelude.{ℕ}
use salt_optimizations.Prelude.Bytes.{Bytes}
use salt_optimizations.Prelude.Result.{Res, ok, err, panic, out_of_fuel}
use salt_optimizations.Types.SaltKey.{SaltKey}

pub data ProofError : Type 0 where
  state_read_error : String → ProofError
  missing_root_commitment : ProofError
  root_mismatch : Bytes → Bytes → ProofError
  multi_point_proof_failed : ProofError
  invalid_lookup_table : String → ProofError
  invalid_salt_key : SaltKey → ℕ → ProofError

-- `map_err(|_| error)`
abbrev pub map_err {ℓ} : {E F : Type 0} {A : Type ℓ} → F → Res E A → Res F A
map_err error (ok a) = ok a
map_err error (err e) = err error
map_err error panic = panic
map_err error out_of_fuel = out_of_fuel
