-- ===== src/Fieldpath.antt =====
-- pkg/fieldpath: field paths, and paved objects that are read and written by them.
pub mod Segment
pub mod Errors
pub mod Lexer
pub mod Value
pub mod Items
pub mod Fields
pub mod Paved
