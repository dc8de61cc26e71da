-- ===== src/Parser.antt =====
-- The parser of src/frontend/ana_parser.cpp on the tokens of the lexer, down to the program tree. The
-- passes that it runs on what it has read are in Frontend.
pub mod State
pub mod Operands
pub mod Instructions
pub mod Blocks
pub mod Declarations
pub mod Progress
pub mod Kept
pub mod Passed
pub mod Loops
pub mod Total
pub mod Programs
pub mod Arithmetic
pub mod Printed
mod Tests
