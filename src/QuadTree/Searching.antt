-- ===== src/QuadTree/Searching.antt =====
-- sbd_tree.cpp: `Search`, `GetPointCount` and `GetPointExistance`.
use xteam.Prelude.{ℕ, suc, ◌+◌, Bool, true, false, ◌||◌, List, [], ◌∷◌, ◌++◌, if◌then◌else◌, length}
use xteam.QuadTree.Types.{Bound, Item, Node, null, inter, entry, intersect, contain, contain_bound}

-- `QTree::Search`: what it adds to `result`.
unfoldable pub search : Node → Bound → List Item
search null query = []
search (entry item chain) query = if contain query item.position then item ∷ chain else []
search (inter b n t0 t1 t2 t3) query =
    let below = search t0 query ++ (search t1 query ++ (search t2 query ++ search t3 query)) in
    if intersect b query then below else []

-- `QTree::GetPointCount`
unfoldable pub get_point_count : Bool → Node → Bound → ℕ
get_point_count be_list null query = 0
get_point_count be_list (entry item chain) query =
    if contain query item.position then (if be_list then suc (length chain) else 1) else 0
get_point_count be_list (inter b n t0 t1 t2 t3) query =
    let below =
      get_point_count be_list t0 query
      + get_point_count be_list t1 query
      + get_point_count be_list t2 query
      + get_point_count be_list t3 query in
    if intersect b query then (if contain_bound query b then n else below) else 0

-- `QTree::GetPointExistance`
unfoldable pub get_point_existance : Node → Bound → Bool
get_point_existance null query = false
get_point_existance (entry item chain) query = contain query item.position
get_point_existance (inter b n t0 t1 t2 t3) query =
    let below =
      get_point_existance t0 query
      || get_point_existance t1 query
      || get_point_existance t2 query
      || get_point_existance t3 query in
    if intersect b query then (if contain_bound query b then true else below) else false
