-- ===== src/Proof.antt =====
-- salt/src/proof: the nodes of a proof, proving and verifying, and witnesses.
pub mod Sets
pub mod Shape
pub mod Errors
pub mod Opening
pub mod Subtrie
pub mod Prover
pub mod SaltWitness
pub mod Witness
