-- ===== src/Text.antt =====
-- The text functions of utils.go: `escapeDN`, `parseFilter`, `extractAttribute`, and the decimal
-- numbers of `strconv` that the program uses.
pub mod Escape
pub mod Decimal
pub mod Split
pub mod Path
pub mod Filter
pub mod Extract
pub mod Regex
