-- ===== src/Sorting.antt =====
-- 算法/cpp/sort/sort.h: the sorting templates, over arrays that are changed in place.
mod Tests
pub mod Select
pub mod Gap
pub mod Insertion
pub mod InFront
pub mod Merging
pub mod Runs
pub mod Merged
pub mod MergeSort
pub mod Quick
pub mod Distinct
pub mod Parted
pub mod Partition
pub mod QuickSort
pub mod Heap
pub mod HeapOrder
pub mod HeapSort
