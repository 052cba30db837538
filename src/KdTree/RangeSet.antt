-- ===== src/KdTree/RangeSet.antt =====
-- kdtree.c: the result set that the range search hands out, and how it is given back.
use xteam.Prelude.{
  ℕ, ◌+◌, ◌≤◌, ◌<◌, ◌≡◌, Bool, true, false, Option, none, some, List, [], ◌∷◌, arith, length, set,
  count_if,
}
use xteam.Scalar.{Scalar, le}
use xteam.KdTree.Types.{malloc, Tree, Entry, ResNode, Pool, ResSet, alloc_resnode, free_resnode}
use xteam.KdTree.Results.{clear_results, res_free, res_size}
use xteam.KdTree.Search.{find_nearest, nearest_range}
use xteam.KdTree.Order.{entries, IsKd}
use xteam.KdTree.Reports.{reported}
use xteam.KdTree.Nearest.{inside, within, find_nearest-Reports}
use xteam.KdTree.Supply.{
  leading, supply, malloc-leading, alloc_resnode-supply, find_nearest-Succeeds,
}

abbrev returned : Option ℕ → ℕ
returned none = 0
returned (some k) = k

module _ {R D : Type 0} where
  clear_results-supply :
      (l : List (ResNode R D)) (p : Pool) → supply (clear_results l p) ≡ supply p + length l
  unfolding clear_results
  clear_results-supply [] p = omega arith
  clear_results-supply (r ∷ rs) p = ground (arith, clear_results-supply rs (free_resnode p))

  -- Freeing a set gives back its nodes and the head of its list.
  pub res_free-supply :
      (l : List (ResNode R D)) (p : Pool) → supply (res_free l p) ≡ supply p + length l + 1
  unfolding res_free
  res_free-supply l p = ground (arith, clear_results-supply l p)

module _ {R D : Type 0} ⦃s : Scalar R⦄ where
  -- For a tree in order, of at least one dimension, and a range that is not negative: a set that the
  -- range search returns is rewound, its size is the length of its list, and its
  -- list holds every node strictly inside the range once, those at the range at most once, and no
  -- other: stated for the nodes that pass any test `P`.
  pub nearest_range-reported :
      (P : Entry R D → Bool) (t : Tree R D) (pos : List R) (range : R) (p : Pool) (set : ResSet R D)
      → 0 < t.dim
      → IsKd 0 t.dim t.root
      → le s.origin range ≡ true
      → (nearest_range t pos range p).0 ≡ some set
      → (set.riter ≡ set.rlist)
        × (res_size set ≡ length set.rlist)
        × (count_if (inside P t.dim pos range) (entries t.root) ≤ reported P set.rlist)
        × (reported P set.rlist ≤ count_if (within P t.dim pos range) (entries t.root))
  unfolding nearest_range res_size
  nearest_range-reported P t pos range p set lt k nonneg h =
      let p1 = (alloc_resnode (record p { memory = (malloc p.memory).1 })).1 in
      ground (arith, find_nearest-Reports P t.root 0 t.dim pos range false lt k nonneg [] p1)

  -- For a tree in order, of at least one dimension, and a range that is not negative: the range search
  -- returns a set if the first `malloc` succeeds and a result node can be had for the list head and for
  -- every node of the tree; freeing that set gives back all result nodes.
  pub nearest_range_total :
      (t : Tree R D) (pos : List R) (range : R) (p : Pool)
      → 0 < t.dim
      → IsKd 0 t.dim t.root
      → le s.origin range ≡ true
      → 0 < leading p.memory
      → length (entries t.root) + 2 ≤ supply p
      → (set : ResSet R D) × ((nearest_range t pos range p).0 ≡ some set)
        × (supply (res_free set.rlist (nearest_range t pos range p).1) + 1 ≡ supply p)
  unfolding nearest_range
  nearest_range_total t pos range p lt k nonneg h1 h2 =
      let p0 = record p { memory = (malloc p.memory).1 } in
      let p1 = (alloc_resnode p0).1 in
      let found = find_nearest t.root pos range false t.dim [] p1 in
      (
        record { rlist = found.1; riter = found.1; size = returned found.0 },
        ground (
          arith,
          malloc-leading p.memory h1,
          alloc_resnode-supply p0,
          find_nearest-Succeeds t.root pos range false t.dim [] p1,
        ),
        ground (
          arith,
          malloc-leading p.memory h1,
          alloc_resnode-supply p0,
          find_nearest-Succeeds t.root pos range false t.dim [] p1,
          find_nearest-Reports (λ _. true) t.root 0 t.dim pos range false lt k nonneg [] p1,
          res_free-supply found.1 found.2,
        ),
      )
