-- ===== src/Frontend.antt =====
-- The passes that the parser of src/frontend/ana_parser.cpp runs on what it has read.
pub mod Layout
pub mod DeadCode
pub mod Fold
pub mod Folded
mod Tests
