-- ===== src/SearchTree/RoundTrip.antt =====
-- tree.h: `FMOrderBuildTree` and `MLOrderBuikdTree` rebuild the tree from two of its walks.
use xteam.Prelude.{
  ℕ, zero, suc, ◌+◌, ◌-◌, ◌≤◌, ◌<◌, ◌≡◌, refl, sym, ap, ◌∙◌, true, false, some, List, [], ◌∷◌, ◌++◌,
  arith, ltb, leb, length, length-append,
}
use xteam.Arrays.Order.{Order, at}
use xteam.SearchTree.Types.{Tree, null, node, size, first_traver, mid_traver, last_traver}
use xteam.SearchTree.Rebuild.{
  index, index_tail, index_head, fm_order_build_tree, ml_order_build_tree,
}
use xteam.SearchTree.Segments.{
  IsAt, IsAt-append, IsAt-self, IsDistinct, IsDistinct-append, index_tail_lem, index_head_lem,
}

module _ {T : Type 0} where
  length-mid : (t : Tree T) → length (mid_traver t) ≡ size t
  unfolding mid_traver
  length-mid null = refl
  length-mid (node x l r) =
      omega (arith, length-append {0} (mid_traver l) (x ∷ mid_traver r), length-mid l, length-mid r)

  length-first : (t : Tree T) → length (first_traver t) ≡ size t
  unfolding first_traver
  length-first null = refl
  length-first (node x l r) =
      omega
        (arith, length-append {0} (first_traver l) (first_traver r), length-first l, length-first r)

  length-last : (t : Tree T) → length (last_traver t) ≡ size t
  unfolding last_traver
  length-last null = refl
  length-last (node x l r) = omega (
    arith,
    length-append {0} (last_traver l) (last_traver r ++ (x ∷ [])),
    length-append {0} (last_traver r) (x ∷ []),
    length-last l,
    length-last r,
  )

module _ {T : Type 0} ⦃o : Order T⦄ where
  fm_step_lem :
      (fuel : ℕ) (first : List T) (fstart fstop : ℕ) (middle : List T) (mstart mstop idx split : ℕ)
      (x : T) (l r : Tree T)
      → fstart < fstop
      → mstart < mstop
      → at first fstart ≡ x
      → index_tail middle (mstop - mstart) mstart x ≡ some idx
      → suc fstart + (idx - mstart) ≡ split
      → fm_order_build_tree fuel first (suc fstart) split middle mstart idx ≡ some l
      → fm_order_build_tree fuel first split fstop middle (suc idx) mstop ≡ some r
      → fm_order_build_tree (suc fuel) first fstart fstop middle mstart mstop ≡ some (node x l r)
  unfolding fm_order_build_tree index
  fm_step_lem fuel first fstart fstop middle mstart mstop idx split x l r less less' here i s bl
        br =
      let e : leb fstop fstart ≡ false = ground arith in
      let e' : leb mstop mstart ≡ false = ground arith in
      rw e (rw e' (rw here (rw i (rw s (rw bl (rw br refl))))))

  fm_build_lem :
      (t : Tree T) (fuel : ℕ) (first : List T) (fstart fstop : ℕ) (middle : List T)
      (mstart mstop : ℕ)
      → size t < fuel
      → fstart + size t ≡ fstop
      → mstart + size t ≡ mstop
      → IsAt first fstart (first_traver t)
      → IsAt middle mstart (mid_traver t)
      → IsDistinct (mid_traver t)
      → fm_order_build_tree fuel first fstart fstop middle mstart mstop ≡ some t
  unfolding fm_order_build_tree first_traver mid_traver
  fm_build_lem t zero first fstart fstop middle mstart mstop less ef em p q d =
      absurd (omega (arith, less))
  fm_build_lem null (suc fuel) first fstart fstop middle mstart mstop less ef em p q d =
      let e : leb fstop fstart ≡ true = ground arith in rw e refl
  fm_build_lem (node x l r) (suc fuel) first fstart fstop middle mstart mstop less ef em (here, p) q
        d =
      let (below, dl, above, dr) = IsDistinct-append (mid_traver l) (mid_traver r) x d in
      let (pl, pr) =
        IsAt-append first (suc fstart) (suc fstart + size l) (first_traver l) (first_traver r)
          (omega (arith, length-first l)) p in
      let idx = mstart + size l in
      let (ql, (qx, qr)) =
        IsAt-append middle mstart idx (mid_traver l) (x ∷ mid_traver r)
          (omega (arith, length-mid l)) q in
      let e : length (mid_traver l) + suc (size r) ≡ mstop - mstart = omega (arith, length-mid l) in
      let e' : mstart + length (mid_traver l) ≡ idx = omega (arith, length-mid l) in
      let i = index_tail_lem middle mstart (size r) (mid_traver l) x (mid_traver r) q below in
      fm_step_lem fuel first fstart fstop middle mstart mstop idx (suc fstart + size l) x l r
        (omega arith) (omega arith) here
        (ap (λ k. index_tail middle k mstart x) (sym e) ∙ i ∙ ap some e') (omega arith)
        (fm_build_lem l fuel first (suc fstart) (suc fstart + size l) middle mstart idx
          (omega arith) refl refl pl ql dl)
        (fm_build_lem r fuel first (suc fstart + size l) fstop middle (suc idx) mstop (omega arith)
          (omega arith) (omega arith) pr qr dr)

  ml_step_lem :
      (fuel : ℕ) (middle : List T) (mstart mstop : ℕ) (last : List T) (lstart lend idx split : ℕ)
      (x : T) (l r : Tree T)
      → mstart < mstop
      → lstart ≤ lend
      → mstart ≤ idx
      → at last lend ≡ x
      → index_head middle mstop x ≡ some idx
      → lstart + idx - mstart ≡ split
      → ml_order_build_tree fuel middle mstart idx last lstart split ≡ some l
      → ml_order_build_tree fuel middle (suc idx) mstop last split lend ≡ some r
      → ml_order_build_tree (suc fuel) middle mstart mstop last lstart (suc lend)
        ≡ some (node x l r)
  unfolding ml_order_build_tree index
  ml_step_lem fuel middle mstart mstop last lstart lend idx split x l r less less' less'' here i s
        bl br =
      let e : leb mstop mstart ≡ false = ground arith in
      let e' : leb (suc lend) lstart ≡ false = ground arith in
      let e'' : ltb (lstart + idx) mstart ≡ false = ground arith in
      let one : suc lend - 1 ≡ lend = omega arith in
      rw e (rw e' (rw one (rw here (rw i (rw s (rw bl (rw br (rw e'' refl))))))))

  ml_build_lem :
      (t : Tree T) (fuel : ℕ) (middle : List T) (mstart mstop : ℕ) (last : List T)
      (lstart lstop : ℕ)
      → size t < fuel
      → mstart + size t ≡ mstop
      → lstart + size t ≡ lstop
      → IsAt middle mstart (mid_traver t)
      → IsAt last lstart (last_traver t)
      → IsDistinct (mid_traver t)
      → ml_order_build_tree fuel middle mstart mstop last lstart lstop ≡ some t
  unfolding ml_order_build_tree last_traver mid_traver
  ml_build_lem t zero middle mstart mstop last lstart lstop less em el q p d =
      absurd (omega (arith, less))
  ml_build_lem null (suc fuel) middle mstart mstop last lstart lstop less em el q p d =
      let e : leb mstop mstart ≡ true = ground arith in rw e refl
  ml_build_lem (node x l r) (suc fuel) middle mstart mstop last lstart lstop less em el q p d =
      let (below, dl, above, dr) = IsDistinct-append (mid_traver l) (mid_traver r) x d in
      let split = lstart + size l in
      let lend = split + size r in
      let (pl, prx) =
        IsAt-append last lstart split (last_traver l) (last_traver r ++ (x ∷ []))
          (omega (arith, length-last l)) p in
      let (pr, (px, end)) =
        IsAt-append last split lend (last_traver r) (x ∷ []) (omega (arith, length-last r)) prx in
      let idx = mstart + size l in
      let (ql, (qx, qr)) =
        IsAt-append middle mstart idx (mid_traver l) (x ∷ mid_traver r)
          (omega (arith, length-mid l)) q in
      let e : mstart + length (mid_traver l) + suc (length (mid_traver r)) ≡ mstop =
        omega (arith, length-mid l, length-mid r) in
      let e' : mstart + length (mid_traver l) ≡ idx = omega (arith, length-mid l) in
      let i = index_head_lem middle mstart (mid_traver l) x (mid_traver r) q above in
      let stop : lstop ≡ suc lend = omega arith in
      rw stop (
        ml_step_lem fuel middle mstart mstop last lstart lend idx split x l r (omega arith)
          (omega arith) (omega arith) px (ap (λ k. index_head middle k x) (sym e) ∙ i ∙ ap some e')
          (omega arith)
          (ml_build_lem l fuel middle mstart idx last lstart split (omega arith) refl refl ql pl dl)
          (ml_build_lem r fuel middle (suc idx) mstop last split lend (omega arith) (omega arith)
            refl qr pr dr))

  -- `FMOrderBuildTree` of what `FirstTraver` and `MidTraver` print of a tree without equal values builds
  -- that tree, with fuel above the number of nodes.
  pub fm_order_build_tree-traver :
      (t : Tree T) (fuel : ℕ)
      → size t < fuel
      → IsDistinct (mid_traver t)
      → fm_order_build_tree fuel (first_traver t) 0 (size t) (mid_traver t) 0 (size t) ≡ some t
  fm_order_build_tree-traver t fuel less d =
      fm_build_lem t fuel (first_traver t) 0 (size t) (mid_traver t) 0 (size t) less (omega arith)
        (omega arith) (IsAt-self (first_traver t)) (IsAt-self (mid_traver t)) d

  -- `MLOrderBuikdTree` of what `MidTraver` and `LastTraver` print of a tree without equal values builds
  -- that tree, with fuel above the number of nodes.
  pub ml_order_build_tree-traver :
      (t : Tree T) (fuel : ℕ)
      → size t < fuel
      → IsDistinct (mid_traver t)
      → ml_order_build_tree fuel (mid_traver t) 0 (size t) (last_traver t) 0 (size t) ≡ some t
  ml_order_build_tree-traver t fuel less d =
      ml_build_lem t fuel (mid_traver t) 0 (size t) (last_traver t) 0 (size t) less (omega arith)
        (omega arith) (IsAt-self (mid_traver t)) (IsAt-self (last_traver t)) d
