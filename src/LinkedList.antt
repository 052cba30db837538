-- ===== src/LinkedList.antt =====
-- 算法/cpp/MYSTL/list.h: the doubly linked list between two sentinels.
mod Tests
pub mod Types
pub mod Finding
pub mod Sorts
pub mod Runners
pub mod Linked
pub mod Edits
pub mod Counted
pub mod Loops
pub mod Tied
pub mod Reversal
pub mod Found
pub mod Turning
pub mod Selected
