-- ===== src/Book.antt =====
-- The package book/: orders at price levels, the tree of levels, the index and the matching.
-- Prices and quantities are mantissas: every one in a book has the market's precision, at which
-- the arithmetic of types/decimal.go is that of int64 mantissas and never panics.
pub mod Node
pub mod Level
pub mod Tree
pub mod Index
pub mod Match
pub mod Orders
