-- ===== src/QuadTree/Fresh.antt =====
-- sbd_tree.cpp: the inner node that takes the place of an entry.
use xteam.Prelude.{
  ℕ, suc, ◌≡◌, refl, inl, inr, Bool, true, false, some, List, [], ◌∷◌, leb, Bool-cases,
}
use xteam.QuadTree.Types.{
  Bound, Item, Node, null, inter, entry, quarter, center, can_divide, contain,
}
use xteam.QuadTree.Adding.{with_child, place, add_node}
use xteam.QuadTree.Well.{items, IsQuad}
use xteam.QuadTree.Kept.{IsInner}

abbrev pub one_child : Bound → Bool → Bool → Item → List Item → Bool × Node
one_child b at_left at_top old chain =
    with_child b 0 at_left at_top null null null null (true, entry old chain)

abbrev pub tree_of : Bool × Node → Node
tree_of (ok, t) = t

-- The old node is moved into an inner node that has no other child.
pub fresh_node :
    (f : ℕ) (be_list : Bool) (b : Bound) (old : Item)
    → can_divide b ≡ true
    → add_node (suc f) be_list (inter b 0 null null null null) old []
      ≡ some (
        true,
        tree_of (
            one_child b (leb old.position.x (center b).x) (leb old.position.y (center b).y) old []),
      )
unfolding add_node place
fresh_node f be_list b old d = rw d (elim (Bool-cases (leb old.position.x (center b).x)) [
  | inl l ↦ elim (Bool-cases (leb old.position.y (center b).y)) [
    | inl t ↦ rw l (rw t refl)
    | inr t ↦ rw l (rw t refl)
  ]
  | inr l ↦ elim (Bool-cases (leb old.position.y (center b).y)) [
    | inl t ↦ rw l (rw t refl)
    | inr t ↦ rw l (rw t refl)
  ]
])

pub fresh-IsGrown :
    (b : Bound) (at_left at_top : Bool) (old : Item)
    → contain (quarter b at_left at_top) old.position ≡ true
    → (t : Node) × (t ≡ tree_of (one_child b at_left at_top old []))
      × IsInner t
      × IsQuad b t
      × (items t ≡ old ∷ [])
fresh-IsGrown b true true old h = (
  inter b 1 (entry old []) null null null,
  refl,
  record {},
  (refl, refl, (h, refl), record {}, record {}, record {}),
  refl,
)
fresh-IsGrown b true false old h = (
  inter b 1 null (entry old []) null null,
  refl,
  record {},
  (refl, refl, record {}, (h, refl), record {}, record {}),
  refl,
)
fresh-IsGrown b false true old h = (
  inter b 1 null null (entry old []) null,
  refl,
  record {},
  (refl, refl, record {}, record {}, (h, refl), record {}),
  refl,
)
fresh-IsGrown b false false old h = (
  inter b 1 null null null (entry old []),
  refl,
  record {},
  (refl, refl, record {}, record {}, record {}, (h, refl)),
  refl,
)
