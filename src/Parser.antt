-- ===== src/Parser.antt =====
-- src/parser: from text to tokens.
pub mod Lexer
