-- ===== src/KdTree.antt =====
-- 数据结构/kd-tree/kdtree.c: the k-d tree, its bounding box and its range search.
-- A tree is owned by its root, and a result list by its set, so both are values. What `malloc`
-- returns is an input: a list of outcomes, of which each call takes one.
pub mod Types
pub mod Rect
pub mod Build
pub mod Results
pub mod Search
pub mod Order
pub mod Reports
pub mod Nearest
pub mod Supply
pub mod RangeSet
pub mod Box
pub mod Sorted
pub mod Clearing
mod Tests
