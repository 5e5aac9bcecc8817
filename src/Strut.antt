-- ===== src/Strut.antt =====
-- The package strut: replacing in the byte buffer Mutable.
pub mod Replace
