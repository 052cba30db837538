-- ===== src/MedianTree/Tests.antt =====
-- base-kdtree.c: the six points of `main`, with integer coordinates.
use xteam.Prelude.{ℕ, ◌≡◌, refl, none, some, List, [], ◌∷◌, arith}
use xteam.Prelude.Int.{ℤ, pos}
use xteam.Scalar.Integers.{integers}
use xteam.MedianTree.Types.{Node, null, node, Best, dist2}
use xteam.MedianTree.Build.{make_tree}
use xteam.MedianTree.Nearest.{next_dim, nearest}
use xteam.MedianTree.Order.{IsMedian}
use xteam.MedianTree.Chosen.{IsIn}
use xteam.MedianTree.Least.{IsLeast, nearest_lem}

abbrev point : ℕ → ℕ → List ℤ
point x y = pos x ∷ pos y ∷ []

abbrev leaf : ℕ → ℕ → Node ℤ
leaf x y = node (point x y) null null

abbrev left_half : Node ℤ
left_half = node (point 5 4) (leaf 2 3) (leaf 4 7)

abbrev right_half : Node ℤ
right_half = node (point 9 6) (leaf 8 1) null

abbrev sample : Node ℤ
sample = node (point 7 2) left_half right_half

abbrev start : Best ℤ
start = record { best = none; best_dist2 = pos 0; visited = 0 }

sample_runs :
    nearest sample (point 9 2) 0 2 start
    ≡ record { best = some (point 8 1); best_dist2 = pos 2; visited = 3 }
unfolding nearest integers
sample_runs = refl

sample-IsMedian : IsMedian 0 2 sample
unfolding next_dim integers
sample-IsMedian = ground arith

nearest_lem_example :
    let x = nearest sample (point 9 2) 0 2 start in
    (q : List ℤ) × (x.best ≡ some q)
    × IsIn q sample
    × (x.best_dist2 ≡ dist2 q (point 9 2) 2)
    × IsLeast (point 9 2) 2 sample x
nearest_lem_example =
    nearest_lem (point 9 2) 2 (point 7 2) left_half right_half 0 start (omega arith) sample-IsMedian
      refl

-- The tree of the six points of `main`.
make_tree_runs :
    make_tree 6 0 6 0 2 (point 2 3 ∷ point 5 4 ∷ point 9 6 ∷ point 4 7 ∷ point 8 1 ∷ point 7 2 ∷ [])
    ≡ some (sample, point 2 3 ∷ point 5 4 ∷ point 4 7 ∷ point 7 2 ∷ point 8 1 ∷ point 9 6 ∷ [])
unfolding make_tree integers
make_tree_runs = refl
