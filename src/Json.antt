-- ===== src/Json.antt =====
-- json.c: a sample as a JSON text.
pub mod Syntax
pub mod Format
pub mod Sample
pub mod Lines
pub mod Print
pub mod WellFormed
pub mod Out
