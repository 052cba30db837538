-- ===== src/SearchTree/Tests.antt =====
-- tree.h: runs on trees of numbers.
use xteam.Prelude.{ℕ, suc, ◌+◌, ◌≡◌, refl, some, [], ◌∷◌, arith}
use xteam.Arrays.Numbers.{numbers}
use xteam.SearchTree.Types.{
  Tree, null, node, size, first_traver, mid_traver, last_traver, depth, insert, bst_max_tree_node,
}
use xteam.SearchTree.Deleting.{delete, dangling}
use xteam.SearchTree.Iterations.{bf_iteration, last_traver_iteration}
use xteam.SearchTree.Rebuild.{fm_order_build_tree, ml_order_build_tree}
use xteam.SearchTree.Order.{IsAscending, put}
use xteam.SearchTree.Edits.{insert-IsAscending}
use xteam.SearchTree.Deletion.{IsDeletion, delete_lem}
use xteam.SearchTree.LastWalk.{objects, last_traver_iteration_lem}
use xteam.SearchTree.Breadth.{levels, bf_iteration_lem}
use xteam.SearchTree.RoundTrip.{fm_order_build_tree-traver, ml_order_build_tree-traver}

abbrev bush : Tree ℕ
bush = node 5 (node 2 null (node 3 null null)) (node 8 (node 7 null null) null)

abbrev placed_bush : Tree (ℕ × ℕ)
placed_bush =
    node (10, 5) (node (20, 2) null (node (30, 3) null null))
      (node (40, 8) (node (50, 7) null null) null)

abbrev leaf : Tree ℕ
leaf = node 4 null null

delete_root_run : delete leaf 4 ≡ dangling
unfolding delete
delete_root_run = refl

bst_max_tree_node_run : bst_max_tree_node bush null ≡ some (node 8 (node 7 null null) null, bush)
unfolding bst_max_tree_node
bst_max_tree_node_run = refl

bush_ascends : IsAscending (mid_traver bush)
unfolding mid_traver
bush_ascends = ground arith

insert-IsAscending_example :
    (mid_traver (insert bush 5) ≡ put 5 (mid_traver bush))
    × IsAscending (mid_traver (insert bush 5))
insert-IsAscending_example = insert-IsAscending bush 5 bush_ascends

delete_lem_example : IsDeletion 5 (mid_traver bush) (delete bush 5)
delete_lem_example = delete_lem bush 5 bush_ascends

bf_iteration_lem_example :
    bf_iteration (size bush + 1) (bush ∷ []) ≡ some (levels (suc (depth bush)) 0 (bush ∷ []))
bf_iteration_lem_example = bf_iteration_lem bush 0 (cc)

last_traver_iteration_lem_example :
    last_traver_iteration (size (objects placed_bush) + size (objects placed_bush) + 1) placed_bush
    ≡ some (last_traver (objects placed_bush))
last_traver_iteration_lem_example =
    last_traver_iteration_lem placed_bush 0 (omega arith) (omega arith)

fm_order_build_tree-traver_example :
    fm_order_build_tree 6 (first_traver bush) 0 (size bush) (mid_traver bush) 0 (size bush)
    ≡ some bush
fm_order_build_tree-traver_example =
    fm_order_build_tree-traver bush 6 (omega arith) (unfold mid_traver in ground arith)

ml_order_build_tree-traver_example :
    ml_order_build_tree 6 (mid_traver bush) 0 (size bush) (last_traver bush) 0 (size bush)
    ≡ some bush
ml_order_build_tree-traver_example =
    ml_order_build_tree-traver bush 6 (omega arith) (unfold mid_traver in ground arith)
