-- ===== src/MedianTree.antt =====
-- 数据结构/kd-tree/base-kdtree.c: the k-d tree that is built at once, around medians.
pub mod Types
pub mod Build
pub mod Nearest
pub mod Order
pub mod Beyond
pub mod Least
pub mod Chosen
mod Tests
