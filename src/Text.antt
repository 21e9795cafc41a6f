-- ===== src/Text.antt =====
-- The part of Go's `strings` package that the program uses, over byte sequences.
pub mod Search
pub mod Space
pub mod Pieces
pub mod Runes
pub mod Decimal
pub mod Order
