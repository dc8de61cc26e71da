-- ===== src/Encoder/RoundTrip.antt =====
-- Each group of methods of src/backend/ana_encoder.cpp against the decoder.
pub mod RegReg
pub mod RegImm
pub mod Memory
pub mod Scalar
pub mod Wide
