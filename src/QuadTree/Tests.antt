-- ===== src/QuadTree/Tests.antt =====
-- sbd_tree.cpp: runs on a tree of a few points.
use xteam.Prelude.{ℕ, ◌≡◌, refl, ◌∷◌, Bool, true, false, Option, some, [], arith, length, ◌>>=◌}
use xteam.QuadTree.Types.{
  Bound, Item, Node, null, inter, entry, contain, center, can_divide, intersect, contain_bound,
}
use xteam.QuadTree.Adding.{add_node}
use xteam.QuadTree.Searching.{get_point_count, get_point_existance}
use xteam.QuadTree.Well.{items, IsQuad, IsBound}
use xteam.QuadTree.Kept.{IsInner, IsGrown}
use xteam.QuadTree.Added.{add_node-IsGrown}

abbrev square : Bound
square = record { left = 0; top = 0; right = 8; bottom = 8 }

abbrev at_point : ℕ → ℕ → Item
at_point a b = record { position = record { x = a; y = b }; value = 7 }

abbrev empty_tree : Node
empty_tree = inter square 0 null null null null

abbrev one_point : Node
one_point = inter square 1 (entry (at_point 1 1) []) null null null

-- Two points at one place and one beside them, where `be_list` is true.
abbrev three_points : Option Node
three_points = add_node 20 true empty_tree (at_point 1 1) [] >>= λ r.
    let (ok, t) = r in
    add_node 20 true t (at_point 1 1) [] >>= λ r'.
    let (ok', t') = r' in
    add_node 20 true t' (at_point 3 3) [] >>= λ r''. let (ok'', t'') = r'' in some t''

three_points_count : (three_points >>= λ t. some (length (items t))) ≡ some 3
unfolding add_node can_divide center
three_points_count = refl

-- The count of the quarter, which the chain was moved to, is 2.
quarter_count :
    (three_points >>= λ t.
    some (get_point_count true t (record { left = 0; top = 0; right = 4; bottom = 4 })))
    ≡ some 2
unfolding add_node get_point_count can_divide center intersect contain_bound
quarter_count = refl

existance_run : get_point_existance empty_tree square ≡ true
unfolding get_point_existance intersect contain_bound
existance_run = refl

square-IsBound : IsBound square
square-IsBound = record { wide = omega arith; high = omega arith }

one_point-IsQuad : IsQuad square one_point
unfolding contain center
one_point-IsQuad = (refl, refl, (refl, refl), record {}, record {}, record {})

add_node-IsGrown_example :
    (ok : Bool) × (t' : Node) × (add_node 17 false one_point (at_point 2 1) [] ≡ some (ok, t'))
    × IsInner t'
    × IsGrown square one_point (at_point 2 1) ok t'
unfolding contain
add_node-IsGrown_example =
    add_node-IsGrown 17 square one_point (at_point 2 1) (record {}) one_point-IsQuad square-IsBound
      refl (omega arith)

-- Two points at one place, in a chain, and one in another quarter.
abbrev chained_tree : Node
chained_tree =
    inter square 3 (entry (at_point 1 1) (at_point 1 1 ∷ [])) null null (entry (at_point 6 6) [])

abbrev corner : Bound
corner = record { left = 0; top = 0; right = 2; bottom = 2 }

-- `AddNode` builds it.
chained_tree_built :
    (add_node 20 true empty_tree (at_point 1 1) [] >>= λ r.
    add_node 20 true r.1 (at_point 1 1) [] >>= λ r'.
    add_node 20 true r'.1 (at_point 6 6) [] >>= λ r''. some r''.1)
    ≡ some chained_tree
unfolding add_node can_divide center
chained_tree_built = refl

chained_tree_count : get_point_count true chained_tree corner ≡ 2
unfolding get_point_count contain intersect contain_bound
chained_tree_count = refl
