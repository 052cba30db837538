-- ===== src/Vector.antt =====
-- 算法/cpp/MYSTL/vector.h: the class template `Vector`. `T` has the comparisons of an `Order`.
mod Tests
pub mod Types
pub mod Duplicates
pub mod Edits
pub mod Ranks
pub mod Sorts
pub mod Partition
