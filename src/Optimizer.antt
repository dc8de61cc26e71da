-- ===== src/Optimizer.antt =====
-- The optimiser of src/optimizer/ana_ssa.cpp.
pub mod Pass
pub mod Congruence
pub mod Lengths
pub mod Scalars
pub mod Pipeline
pub mod Semantics
pub mod Single
pub mod Gvn
pub mod Passes
pub mod Escape
pub mod Escaping
mod Tests
