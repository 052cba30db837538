-- ===== src/QuadTree/Reports.antt =====
-- sbd_tree.cpp: `Search` finds the points inside the bound, and `GetPointCount` counts them.
