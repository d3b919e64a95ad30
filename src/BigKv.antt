-- ===== src/BigKv.antt =====
-- The set-associative index of src/bigkv_index.c with include/bigkv_index.h.
pub mod Bucket
pub mod Part
pub mod Ops
pub mod Lookup
