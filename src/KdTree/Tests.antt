-- ===== src/KdTree/Tests.antt =====
-- kdtree.c: the sample tree of 数据结构/kd-tree, with integer coordinates.
use xteam.Prelude.{
  ℕ, zero, suc, ◌+◌, ◌≤◌, ◌<◌, ◌≡◌, refl, true, false, none, some, List, [], ◌∷◌, arith, count_if,
}
use xteam.Prelude.Int.{ℤ, pos, negsuc}
use xteam.Scalar.Integers.{integers}
use xteam.KdTree.Types.{Memory, Node, null, node, Tree, Rect, Pool, ResSet}
use xteam.KdTree.Build.{insert_rec, insert}
use xteam.KdTree.Results.{res_size, res_free}
use xteam.KdTree.Search.{dist_from, find_nearest, nearest_range}
use xteam.KdTree.Order.{entries, IsKd, insert_rec-IsKd}
use xteam.KdTree.Nearest.{inside, within}
use xteam.KdTree.Supply.{supply}
use xteam.KdTree.RangeSet.{nearest_range-reported, nearest_range_total}

abbrev point : ℕ → ℕ → List ℤ
point x y = pos x ∷ pos y ∷ []

abbrev sample_root : Node ℤ ℕ
sample_root =
    node (point 5 4) 0 50 (node (point 2 3) 1 20 null (node (point 4 7) 0 40 null null))
      (node (point 9 6) 1 90 null null)

abbrev sample : Tree ℤ ℕ
sample = record {
  dim = 2;
  root = sample_root;
  rect = some (record { dim = 2; low = point 2 3; high = point 9 7 });
  destr = true;
}

abbrev plenty : Memory
plenty = true ∷ true ∷ true ∷ true ∷ true ∷ true ∷ true ∷ true ∷ []

abbrev pool : Pool
pool = record { free_nodes = 0; memory = plenty }

sample-IsKd : IsKd 0 2 sample_root
unfolding integers
sample-IsKd = ground arith

insert_runs :
    (insert_rec sample_root (point 8 1) 80 0 2 plenty).1
    ≡ node
        (point 5 4)
        0
        50
        (node (point 2 3) 1 20 null (node (point 4 7) 0 40 null null))
        (node (point 9 6) 1 90 (node (point 8 1) 0 80 null null) null)
unfolding insert_rec integers
insert_runs = refl

insert_rec-IsKd_example : IsKd 0 2 (insert_rec sample_root (point 8 1) 80 0 2 plenty).1
insert_rec-IsKd_example = insert_rec-IsKd sample_root (point 8 1) 80 0 2 plenty refl sample-IsKd

below_two : (Q : ℕ → Type 0) → Q 0 → Q 1 → (j : ℕ) → j < 2 → Q j
below_two Q a b zero h = a
below_two Q a b (suc zero) h = b
below_two Q a b (suc (suc j)) h = absurd (omega arith)

abbrev box : Rect ℤ
box = record { dim = 2; low = point 2 3; high = point 9 7 }

-- The points within 2 of (4, 5): (5, 4), and (4, 7), which is at exactly 2.
abbrev near : ResSet ℤ ℕ
near = record {
  rlist =
      record { entry = record { pos = point 4 7; item = 40 }; dist_sq = negsuc 0 }
      ∷ record { entry = record { pos = point 5 4; item = 50 }; dist_sq = negsuc 0 }
      ∷ [];
  riter =
      record { entry = record { pos = point 4 7; item = 40 }; dist_sq = negsuc 0 }
      ∷ record { entry = record { pos = point 5 4; item = 50 }; dist_sq = negsuc 0 }
      ∷ [];
  size = 2;
}

nearest_range_runs : (nearest_range sample (point 4 5) (pos 2) pool).0 ≡ some near
unfolding nearest_range integers
nearest_range_runs = refl

nearest_range-reported_example :
    (near.riter ≡ near.rlist)
    × (res_size near ≡ 2)
    × (count_if (inside (λ _. true) 2 (point 4 5) (pos 2)) (entries sample_root) ≤ 2)
    × (2 ≤ count_if (within (λ _. true) 2 (point 4 5) (pos 2)) (entries sample_root))
unfolding integers
nearest_range-reported_example =
    nearest_range-reported (λ _. true) sample (point 4 5) (pos 2) pool near (omega arith)
      sample-IsKd refl nearest_range_runs

nearest_range_total_example :
    (set : ResSet ℤ ℕ) × ((nearest_range sample (point 4 5) (pos 2) pool).0 ≡ some set)
    × (supply (res_free set.rlist (nearest_range sample (point 4 5) (pos 2) pool).1) + 1 ≡ 8)
unfolding integers
nearest_range_total_example =
    nearest_range_total sample (point 4 5) (pos 2) pool (omega arith) sample-IsKd refl (omega arith)
      (omega arith)

-- A node at exactly the range is missed where the search does not cross a plane at that distance:
-- (5, 0), seen from (0, 0) with range 5, lies beyond the plane x = 5.
abbrev edge_root : Node ℤ ℕ
edge_root = node (point 5 9) 0 1 null (node (point 5 0) 1 2 null null)

edge_missed : (find_nearest edge_root (point 0 0) (pos 5) false 2 [] pool).0 ≡ some 0
unfolding find_nearest integers
edge_missed = refl

edge_within : count_if (within (λ _. true) 2 (point 0 0) (pos 5)) (entries edge_root) ≡ 1
unfolding integers dist_from
edge_within = refl

-- A box that could not be allocated is made anew from the next point alone.
box_lost :
    let t1 = (insert (record sample { rect = none }) (point 8 1) 80 (true ∷ true ∷ [])).1 in
    (insert t1 (point 1 1) 11 plenty).1.rect
    ≡ some (record { dim = 2; low = point 1 1; high = point 1 1 })
unfolding insert integers
box_lost = refl
