-- ===== src/Config.antt =====
-- The configuration language: pkg/config.
pub mod Lexer
pub mod Escape
