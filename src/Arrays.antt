-- ===== src/Arrays.antt =====
-- Arrays of the sorting programs, as lists that are read and written by index, over the comparison of
-- their elements. The lemmas on `swap` serve every routine that exchanges elements in place.
pub mod Order
pub mod Swap
pub mod Tally
pub mod Moved
pub mod Split
pub mod Numbers
