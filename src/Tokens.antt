-- ===== src/Tokens.antt =====
-- server/lorax_server/utils/tokens.py: how the next token is chosen and when a request stops.
pub mod Stopping
pub mod Speculation
pub mod Ngram
pub mod Chooser
