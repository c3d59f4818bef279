-- ===== src/Banderwagon.antt =====
-- The precomputed multiplications of banderwagon/src/salt_committer.rs.
pub mod Curve
pub mod Committer
pub mod Limbs
pub mod Windows
pub mod Digits
pub mod Multiples
pub mod Tables
pub mod Addition
pub mod Recoding
pub mod Products
pub mod Loops
pub mod Scalars
