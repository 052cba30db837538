-- ===== src/QuadTree/Added.antt =====
-- sbd_tree.cpp: `AddNode` ends, keeps a tree well-formed, and adds the one point.
use xteam.Prelude.{
  ℕ, zero, suc, ◌<◌, ◌≡◌, refl, sym, ap, ◌∙◌, inl, inr, Bool, true, false, Option, none, some, List,
  [], ◌∷◌, arith, leb, if◌then◌else◌, Bool-cases, length, count_if, ◌>>=◌,
}
use mathlib.Core.Path.{subst}
use xteam.QuadTree.Types.{
  Bound, Item, Node, null, inter, entry, child, quarter, center, can_divide, contain,
}
use xteam.QuadTree.Adding.{same_point, place, add_node}
use xteam.QuadTree.Well.{items, IsQuad, IsBound}
use xteam.QuadTree.Fresh.{fresh_node, fresh-IsGrown}
use xteam.QuadTree.Kept.{
  IsInner, IsGrown, IsAdded, IsAddedInside, span, quarter_less, quarter-IsBound, quarter-contain,
  child-IsQuad, with_child-IsAdded,
}

-- What `AddNode` does at one level is right.
abbrev IsAdder : ℕ → (Node → Item → List Item → Option (Bool × Node)) → Type 0
IsAdder fuel add =
    (b : Bound) (t : Node) (new : Item)
    → IsInner t
    → IsQuad b t
    → IsBound b
    → contain b new.position ≡ true
    → span b < fuel
    → IsAddedInside b t new (add t new [])

forget :
    (b : Bound) (t : Node) (new : Item) (r : Option (Bool × Node))
    → IsAddedInside b t new r
    → IsAdded b t new r
forget b t new none h = h
forget b t new (some (ok, t')) (inner, h) = h

-- A second node after the first.
after_first :
    (b : Bound) (old new : Item) (t : Node) (r : Option (Bool × Node))
    → items t ≡ old ∷ []
    → IsAddedInside b t new r
    → IsAdded b (entry old []) new r
after_first b old new t none e h = h
after_first b old new t (some (ok, t')) e (inner, h) = record {
  quad = h.quad;
  measure = h.measure ∙ ap (λ (l : List Item). if ok then suc (length l) else length l) e;
  tally =
      λ P. h.tally P ∙ ap (λ (l : List Item). if ok then count_if P (new ∷ l) else count_if P l) e;
}

split_lem :
    (fuel : ℕ) (b : Bound) (old new : Item)
    → IsAdder fuel (add_node fuel false)
    → IsBound b
    → contain b old.position ≡ true
    → contain b new.position ≡ true
    → span b < fuel
    → can_divide b ≡ true
    → IsAdded b (entry old []) new (
        add_node fuel false (inter b 0 null null null null) old [] >>= λ r.
        let (ok, t) = r in if ok then add_node fuel false t new [] else some (false, entry old []))
split_lem zero b old new h wf inside inside' less d = absurd (omega (arith, less))
split_lem (suc f) b old new h wf inside inside' less d =
    let l = leb old.position.x (center b).x in
    let t = leb old.position.y (center b).y in
    let (first, e, inner, quad, one) =
      fresh-IsGrown b l t old (quarter-contain b old.position l t inside refl refl) in
    rw (fresh_node f false b old d) (
      rw (sym e) (
        after_first b old new first (add_node (suc f) false first new []) one
          (h b first new inner quad wf inside' less)))

place_lem :
    (fuel : ℕ) (b : Bound) (t : Node) (new : Item)
    → IsAdder fuel (add_node fuel false)
    → IsBound b
    → IsQuad b t
    → contain b new.position ≡ true
    → span b < fuel
    → IsAdded b t new (place (add_node fuel false) false b t new [])
unfolding place
place_lem fuel b null new h wf quad inside less = record {
  quad = (inside, refl);
  measure = refl;
  tally = λ P. refl;
}
place_lem fuel b (inter b' n t0 t1 t2 t3) new h wf quad inside less =
    forget b (inter b' n t0 t1 t2 t3) new (add_node fuel false (inter b' n t0 t1 t2 t3) new [])
      (h b (inter b' n t0 t1 t2 t3) new (record {}) quad wf inside less)
place_lem fuel b (entry old chain) new h wf (inside', e) inside less =
    let same : IsGrown b (entry old []) new false (entry old []) = record {
      quad = (inside', refl);
      measure = refl;
      tally = λ P. refl;
    } in
    rw e (elim (Bool-cases (same_point new.position old.position)) [
      | inl q ↦ rw q same
      | inr q ↦ elim (Bool-cases (can_divide b)) [
        | inl d ↦ rw q (rw d (split_lem fuel b old new h wf inside' inside less d))
        | inr d ↦ rw q (rw d same)
      ]
    ])

level_lem :
    (fuel : ℕ) (b : Bound) (n : ℕ) (t0 t1 t2 t3 : Node) (new : Item)
    → IsAdder fuel (add_node fuel false)
    → IsQuad b (inter b n t0 t1 t2 t3)
    → IsBound b
    → contain b new.position ≡ true
    → span b < suc fuel
    → IsAddedInside b
        (inter b n t0 t1 t2 t3)
        new
        (add_node (suc fuel) false (inter b n t0 t1 t2 t3) new [])
unfolding add_node
level_lem fuel b n t0 t1 t2 t3 new h quad wf inside less =
    let l = leb new.position.x (center b).x in
    let t = leb new.position.y (center b).y in
    let c = child l t t0 t1 t2 t3 in
    elim (Bool-cases (can_divide b)) [
      | inl d ↦
          let smaller : span (quarter b l t) < fuel =
            omega (arith, quarter_less b l t wf d, less) in
          rw d (
            with_child-IsAdded b b n l t t0 t1 t2 t3 new
              (place (add_node fuel false) false (quarter b l t) c new []) quad
              (place_lem fuel (quarter b l t) c new h (quarter-IsBound b l t wf)
                (child-IsQuad b b n l t t0 t1 t2 t3 quad)
                (quarter-contain b new.position l t inside refl refl) smaller))
      | inr d ↦ rw d (record {}, record { quad = quad; measure = refl; tally = λ P. refl })
    ]

add_node-IsAdder : (fuel : ℕ) → IsAdder fuel (add_node fuel false)
unfolding add_node
add_node-IsAdder zero b t new inner quad wf inside less = absurd (omega (arith, less))
add_node-IsAdder (suc fuel) b null new inner quad wf inside less = absurd inner
add_node-IsAdder (suc fuel) b (entry old chain) new inner quad wf inside less = absurd inner
add_node-IsAdder (suc fuel) b (inter b' n t0 t1 t2 t3) new inner (e, m, q0, q1, q2, q3) wf inside
      less =
    subst
      (λ c.
        IsAddedInside b (inter c n t0 t1 t2 t3) new
          (add_node (suc fuel) false (inter c n t0 t1 t2 t3) new []))
      (sym e)
      (level_lem fuel b n t0 t1 t2 t3 new (add_node-IsAdder fuel) (refl, m, q0, q1, q2, q3) wf
        inside less)

outcome :
    (b : Bound) (t : Node) (new : Item) (r : Option (Bool × Node))
    → IsAddedInside b t new r
    → (ok : Bool) × (t' : Node) × (r ≡ some (ok, t')) × IsInner t' × IsGrown b t new ok t'
outcome b t new none h = absurd h
outcome b t new (some (ok, t')) (inner, grown) = (ok, t', refl, inner, grown)

-- `AddNode` where `be_list` is false, in a well-formed tree with an inner node at its root, whose bound is
-- not reversed, of a node without a chain, with its point inside that bound, and with fuel above the width
-- and the height of the bound together: it returns, and leaves such a tree. That has the new point and
-- those that there were, as often, where the node was added, and those that there were where it was not.
pub add_node-IsGrown :
    (fuel : ℕ) (b : Bound) (t : Node) (new : Item)
    → IsInner t
    → IsQuad b t
    → IsBound b
    → contain b new.position ≡ true
    → span b < fuel
    → (ok : Bool) × (t' : Node) × (add_node fuel false t new [] ≡ some (ok, t'))
      × IsInner t'
      × IsGrown b t new ok t'
add_node-IsGrown fuel b t new inner quad wf inside less =
    outcome b t new (add_node fuel false t new [])
      (add_node-IsAdder fuel b t new inner quad wf inside less)
