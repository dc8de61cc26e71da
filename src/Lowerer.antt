-- ===== src/Lowerer.antt =====
-- The lowering of a function to x86-64 code in src/backend/ana_lowerer.cpp: `compile_function`, with
-- the code of each opcode in the children.
pub mod Names
pub mod Operands
pub mod Frame
pub mod Arithmetic
pub mod Memory
pub mod Vectors
pub mod Labels
pub mod Compile
pub mod Cpu
pub mod Runs
pub mod Cells
pub mod Slots
pub mod Access
pub mod Written
pub mod Operation
pub mod TwoOperands
pub mod Moves
pub mod Bits
pub mod Folding
pub mod Meaning
pub mod Entry
pub mod Exit
pub mod Body
pub mod Function
pub mod Call
pub mod Emit
pub mod Compiled
pub mod Refusals
mod Tests
