-- ===== src/Hopscotch.antt =====
-- src/hopscotch.c with include/hopscotch.h.
pub mod Table
pub mod Ops
pub mod Drive
