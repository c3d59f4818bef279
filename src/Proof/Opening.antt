-- ===== src/Proof/Opening.antt =====
-- What proofs take from the multi-point argument: opening vector commitments at positions, and
-- checking such openings. A query names a commitment, a position and the scalar there; the prover's
-- queries have the whole vector of a node too.
use salt_optimizations.Prelude.{ℕ, Bool, List}
use salt_optimizations.Prelude.Maps.{Map}
use salt_optimizations.Trie.Committer.{Committer}

pub record VerifierQuery (c : Committer) : Type 0 where
  pub commitment : c.Element
  pub point : ℕ
  pub result : c.Scalar

pub record ProverQuery (c : Committer) : Type 0 where
  pub commitment : c.Element
  pub poly : List c.Scalar
  pub point : ℕ
  pub result : c.Scalar

-- `MultiPoint::open` and `MultiPointProof::check`, over a fresh transcript and the default CRS.
pub record Opening (c : Committer) : Type 1 where
  pub MultiPointProof : Type 0
  pub open_all : List (ProverQuery c) → MultiPointProof
  pub check_all : MultiPointProof → List (VerifierQuery c) → Bool

-- `SerdeCommitment` is an element; levels are of one byte.
pub record SaltProof (c : Committer) (o : Opening c) : Type 0 where
  pub parents_commitments : Map c.Element
  pub proof : o.MultiPointProof
  pub levels : Map ℕ
