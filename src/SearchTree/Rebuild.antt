-- ===== src/SearchTree/Rebuild.antt =====
-- tree.h: `Index`, `FMOrderBuildTree` and `MLOrderBuikdTree`. A range has its end one beyond the
-- source's, so `[start, end]` is `start` and `stop = end + 1`; a read outside the array is the blank
-- value. A build runs on fuel, one for each level; `none` is a failed assertion, fuel that is used up,
-- or a range that starts below the array.
use xteam.Prelude.{
  ℕ, zero, suc, ◌+◌, ◌-◌, Bool, true, false, ◌||◌, Option, none, some, List, ltb, leb,
  if◌then◌else◌, ◌>>=◌,
}
use xteam.Arrays.Order.{Order, at}
use xteam.SearchTree.Types.{Tree, null, node, equal}

module _ {T : Type 0} ⦃o : Order T⦄ where
  -- The loop of `Index` towards the tail, of so many rounds,
  unfoldable pub index_tail : List T → ℕ → ℕ → T → Option ℕ
  index_tail items zero idx val = none
  index_tail items (suc rounds) idx val =
      let later = index_tail items rounds (suc idx) val in
      if equal (at items idx) val then some idx else later

  -- and the one towards the head, which goes on below `start`, down to 0.
  unfoldable pub index_head : List T → ℕ → T → Option ℕ
  index_head items zero val = none
  index_head items (suc idx) val =
      let earlier = index_head items idx val in
      if equal (at items idx) val then some idx else earlier

  -- `Index`, with `none` for -1.
  unfoldable pub index : List T → ℕ → ℕ → T → Bool → Option ℕ
  unfolding index_tail index_head
  index items start stop val to_tail =
      if to_tail then index_tail items (stop - start) start val else index_head items stop val

  -- `FMOrderBuildTree`
  unfoldable pub fm_order_build_tree : ℕ → List T → ℕ → ℕ → List T → ℕ → ℕ → Option (Tree T)
  unfolding index
  fm_order_build_tree zero first fstart fstop middle mstart mstop = none
  fm_order_build_tree (suc fuel) first fstart fstop middle mstart mstop =
      let build = index middle mstart mstop (at first fstart) true >>= λ idx.
      let split = suc fstart + (idx - mstart) in
      fm_order_build_tree fuel first (suc fstart) split middle mstart idx >>= λ l.
      fm_order_build_tree fuel first split fstop middle (suc idx) mstop >>= λ r.
      some (node (at first fstart) l r) in
      if leb fstop fstart || leb mstop mstart then some null else build

  -- `MLOrderBuikdTree`
  unfoldable pub ml_order_build_tree : ℕ → List T → ℕ → ℕ → List T → ℕ → ℕ → Option (Tree T)
  unfolding index
  ml_order_build_tree zero middle mstart mstop last lstart lstop = none
  ml_order_build_tree (suc fuel) middle mstart mstop last lstart lstop =
      let build = index middle mstart mstop (at last (lstop - 1)) false >>= λ idx.
      let split = lstart + idx - mstart in
      ml_order_build_tree fuel middle mstart idx last lstart split >>= λ l.
      ml_order_build_tree fuel middle (suc idx) mstop last split (lstop - 1) >>= λ r.
      if ltb (lstart + idx) mstart then none else some (node (at last (lstop - 1)) l r) in
      if leb mstop mstart || leb lstop lstart then some null else build
