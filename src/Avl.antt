-- ===== src/Avl.antt =====
-- 算法/cpp/tree/avl_tree.h: the balanced search tree, without `Delete`.
mod Tests
pub mod Types
pub mod Heights
pub mod Rotations
pub mod Balance
pub mod Ordered
pub mod Listing
pub mod Insertion
