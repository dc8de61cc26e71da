-- ===== src/Lexer.antt =====
-- The lexer of src/frontend/ana_lexer.cpp. The text is the list of its bytes up to the zero byte, as
-- unsigned numbers; the class keeps the position in it and the line.
pub mod Scan
pub mod Keywords
pub mod Tokens
pub mod Progress
pub mod Views
pub mod Order
pub mod Words
pub mod Numbers
mod Tests
