-- ===== src/QuadTree.antt =====
-- 数据结构/q-tree/sbd_tree.cpp: the quad tree of points, how it grows and how it is searched.
mod Tests
pub mod Types
pub mod Adding
pub mod Searching
pub mod Well
pub mod Kept
pub mod Fresh
pub mod Added
pub mod Inside
pub mod Reports
