-- ===== src/Encoder.antt =====
-- src/backend/ana_encoder.cpp
pub mod Buffer
pub mod Prefix
pub mod Integer
pub mod System
pub mod Vector
pub mod Decode
pub mod Operands
pub mod Disassemble
pub mod DecodeVector
pub mod VectorPrefix
pub mod RoundTrip
pub mod Growth
pub mod Granted
pub mod Labels
pub mod Resolve
pub mod Invariant
pub mod Session
pub mod Trace
pub mod TraceShape
pub mod Tracks
pub mod Branches
pub mod Jumps
mod Tests
