-- ===== src/Array/Refine.antt =====
-- array.c: a valid array behaves as the list of its elements.
pub mod Ops
pub mod Delete
