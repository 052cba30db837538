-- ===== src/KdTree/Results.antt =====
-- kdtree.c: the result list, its iterator, and how it is freed.
use xteam.Prelude.{ℕ, Bool, true, false, Option, none, some, List, [], ◌∷◌, take, if◌then◌else◌}
use xteam.Scalar.{Scalar, le}
use xteam.KdTree.Types.{
  Status, ok, failed, Entry, ResNode, Pool, ResSet, alloc_resnode, free_resnode,
}

module _ {R D : Type 0} where
  -- `kd_res_size`, `kd_res_next`, `kd_res_end`, `kd_res_rewind`. Past the end `next` would follow a
  -- null pointer: that is `none`.
  unfoldable pub res_size : ResSet R D → ℕ
  res_size s = s.size

  unfoldable pub res_rewind : ResSet R D → ResSet R D
  res_rewind s = record s { riter = s.rlist }

  unfoldable pub res_end : ResSet R D → Bool
  res_end s = elim s.riter [ [] ↦ true | _ ∷ _ ↦ false ]

  unfoldable pub res_next : ResSet R D → Option (Bool × ResSet R D)
  unfolding res_end
  res_next s = elim s.riter [
    | [] ↦ none
    | _ ∷ rest ↦
        let s' : ResSet R D = record s { riter = rest } in
        some (elim (res_end s') [ true ↦ false | false ↦ true ], s')
  ]

  -- `kd_res_item`: the position, copied by its first `dim` numbers, and the item.
  unfoldable pub res_item : ℕ → ResSet R D → Option (List R × D)
  res_item dim s = elim s.riter [ [] ↦ none | r ∷ _ ↦ some (take dim r.entry.pos, r.entry.item) ]

  -- `clear_results`: every node of the list goes to the free list.
  unfoldable pub clear_results : List (ResNode R D) → Pool → Pool
  unfolding free_resnode
  clear_results [] p = p
  clear_results (r ∷ rs) p = clear_results rs (free_resnode p)

  -- `kd_res_free`: then the list head too.
  unfoldable pub res_free : List (ResNode R D) → Pool → Pool
  unfolding clear_results free_resnode
  res_free l p = free_resnode (clear_results l p)

module _ {R D : Type 0} ⦃s : Scalar R⦄ where
  -- The walk of `rlist_insert`, past the nodes that are nearer.
  unfoldable pub insert_sorted : ResNode R D → List (ResNode R D) → List (ResNode R D)
  insert_sorted n [] = n ∷ []
  insert_sorted n (r ∷ rs) = if s.lt r.dist_sq n.dist_sq then r ∷ insert_sorted n rs else n ∷ r ∷ rs

  unfoldable pub rlist_insert :
      List (ResNode R D) → Entry R D → R → Pool → Status × List (ResNode R D) × Pool
  unfolding alloc_resnode insert_sorted
  rlist_insert l e dist_sq p =
      let (got, p') = alloc_resnode p in
      let n : ResNode R D = record { entry = e; dist_sq = dist_sq } in
      if got
      then (ok, if le s.origin dist_sq then insert_sorted n l else n ∷ l, p')
      else (failed, l, p')
