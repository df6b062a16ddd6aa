-- ===== src/Utreexo.antt =====
-- zkvm/src/utreexo: a forest of Merkle trees that stores the roots only.
pub mod Path
pub mod Nodes
pub mod Forest
pub mod Trees
mod Runs
