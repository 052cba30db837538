-- ===== src/KdTree/Clearing.antt =====
-- kdtree.c: clearing a tree.
use xteam.Prelude.{
  ◌≡◌, refl, Bool, true, false, none, [], ◌∷◌, ◌++◌, arith, if◌then◌else◌, count_if,
  count_if-append,
}
use xteam.KdTree.Types.{Node, null, node, Tree, clear_rec, clear}
use xteam.KdTree.Order.{entries}

module _ {R D : Type 0} where
  -- Clearing a tree empties it, and calls the destructor once for every node, on the node's item,
  -- if one is set, and never otherwise: stated for the items that pass any test `P`.
  pub clear_items :
      (P : D → Bool) (t : Tree R D)
      → ((clear t).0.root ≡ null)
        × ((clear t).0.rect ≡ none)
        × (count_if P (clear t).1
            ≡ (if t.destr then count_if (λ e. P e.item) (entries t.root) else 0))
  unfolding clear
  clear_items P t = (refl, refl, calls t.root t.destr)
    where
      calls :
          (n : Node R D) (destr : Bool)
          → count_if P (clear_rec n destr)
            ≡ (if destr then count_if (λ e. P e.item) (entries n) else 0)
      calls null true = refl
      calls null false = refl
      calls (node p i x l r) destr = ground (
        arith,
        calls l destr,
        calls r destr,
        count_if-append P (clear_rec l destr) (clear_rec r destr ++ (if destr then x ∷ [] else [])),
        count_if-append P (clear_rec r destr) (if destr then x ∷ [] else []),
        count_if-append (λ e. P e.item) (entries l) (entries r),
      )
