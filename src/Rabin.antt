-- ===== src/Rabin.antt =====
-- dedup-lib
pub mod Msb
pub mod Poly
pub mod Window
pub mod Segment
pub mod Divide
pub mod Example
