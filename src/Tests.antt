-- ===== src/Tests.antt =====
-- Runs at concrete inputs, and the theorems at inputs that meet their hypotheses.
mod Codecs
mod Tables
mod Batches
mod Sessions
mod Toy
mod Commitments
mod Proofs
mod Points
mod Roots
