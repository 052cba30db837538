-- ===== src/Avl/Tests.antt =====
-- avl_tree.h: runs on trees of numbers.
use xteam.Prelude.{ℕ, ◌≡◌, refl, ◌⊎◌, some, arith}
use xteam.Arrays.Numbers.{numbers}
use xteam.Avl.Types.{Tree, null, node, get_height, mid_traver, insert, max}
use xteam.Avl.Heights.{IsAvl}
use xteam.Avl.Balance.{insert-IsAvl}
use xteam.Avl.Ordered.{IsAscending, put}
use xteam.Avl.Insertion.{insert-mid_traver}

-- The next value above 3 or below 2 makes the tree rotate.
abbrev leaning : Tree ℕ
leaning = node 5 2 (node 2 1 null null) null

insert_run : insert 3 leaning ≡ some (node 3 2 (node 2 1 null null) (node 5 1 null null))
unfolding insert max
insert_run = refl

leaning-IsAvl : IsAvl leaning
unfolding max
leaning-IsAvl = (
  refl,
  omega arith,
  omega arith,
  (refl, omega arith, omega arith, record {}, record {}),
  record {},
)

leaning-IsAscending : IsAscending (mid_traver leaning)
unfolding mid_traver
leaning-IsAscending = ((refl, record {}), (record {}, record {}))

insert-IsAvl_example :
    (t' : Tree ℕ) × (insert 3 leaning ≡ some t')
    × IsAvl t'
    × ((get_height t' ≡ 2) ⊎ (get_height t' ≡ 3))
insert-IsAvl_example = insert-IsAvl 3 leaning leaning-IsAvl

insert-mid_traver_example :
    (t' : Tree ℕ) × (insert 3 leaning ≡ some t') × (mid_traver t' ≡ put 3 (mid_traver leaning))
insert-mid_traver_example = insert-mid_traver 3 leaning leaning-IsAvl leaning-IsAscending
