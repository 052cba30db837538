-- ===== src/SearchTree.antt =====
-- 算法/cpp/tree/tree.h: the plain binary search tree, its walks and its rebuilding from two walks.
mod Tests
pub mod Types
pub mod Deleting
pub mod Iterations
pub mod Rebuild
pub mod Walks
pub mod LastWalk
pub mod Breadth
pub mod Order
pub mod Edits
pub mod Deletion
pub mod Segments
pub mod RoundTrip
