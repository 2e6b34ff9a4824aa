-- ===== src/Go.antt =====
-- What the program uses of the Go language and its standard library.
pub mod Outcome
pub mod Text
pub mod Maps
pub mod FilePath
pub mod Sort
pub mod Template
