-- ===== src/QuadTree/Kept.antt =====
-- sbd_tree.cpp: `AddNode` keeps a tree well-formed and adds the one point.
use xteam.Prelude.{
  [], ℕ, suc, ◌+◌, ◌-◌, ◌<◌, ◌≡◌, Bool, true, false, Option, none, some, List, ◌∷◌, ◌++◌, arith,
  leb, if◌then◌else◌, length, count_if, length-append, count_if-append, ◌>>=◌,
}
use xteam.QuadTree.Types.{
  Point, Bound, Item, Node, null, inter, entry, child, quarter, center, can_divide, contain,
}
use xteam.QuadTree.Adding.{with_child}
use xteam.QuadTree.Well.{items, IsQuad, IsBound}

abbrev pub IsInner : Node → Type 0
IsInner null = ⊥
IsInner (inter b n t0 t1 t2 t3) = Unit
IsInner (entry item chain) = ⊥

-- The tree has the new point where it was added, and the same points otherwise.
pub record IsGrown (b : Bound) (t : Node) (new : Item) (ok : Bool) (t' : Node) : Type 0 where
  pub quad : IsQuad b t'
  pub measure : length (items t') ≡ (if ok then suc (length (items t)) else length (items t))
  pub tally :
      (P : Item → Bool)
      → count_if P (items t') ≡ (if ok then count_if P (new ∷ items t) else count_if P (items t))

abbrev pub IsAdded : Bound → Node → Item → Option (Bool × Node) → Type 0
IsAdded b t new none = ⊥
IsAdded b t new (some (ok, t')) = IsGrown b t new ok t'

abbrev pub IsAddedInside : Bound → Node → Item → Option (Bool × Node) → Type 0
IsAddedInside b t new none = ⊥
IsAddedInside b t new (some (ok, t')) = IsInner t' × IsGrown b t new ok t'

-- How wide and high a bound is, together.
abbrev pub span : Bound → ℕ
span b = (b.right - b.left) + (b.bottom - b.top)

pub quarter_less :
    (b : Bound) (at_left at_top : Bool)
    → IsBound b
    → can_divide b ≡ true
    → span (quarter b at_left at_top) < span b
unfolding can_divide center
quarter_less b true true h d = ground (arith, h.wide, h.high)
quarter_less b true false h d = ground (arith, h.wide, h.high)
quarter_less b false true h d = ground (arith, h.wide, h.high)
quarter_less b false false h d = ground (arith, h.wide, h.high)

pub quarter-IsBound :
    (b : Bound) (at_left at_top : Bool) → IsBound b → IsBound (quarter b at_left at_top)
unfolding center
quarter-IsBound b true true h = record {
  wide = omega (arith, h.wide);
  high = omega (arith, h.high);
}
quarter-IsBound b true false h = record {
  wide = omega (arith, h.wide);
  high = omega (arith, h.high);
}
quarter-IsBound b false true h = record {
  wide = omega (arith, h.wide);
  high = omega (arith, h.high);
}
quarter-IsBound b false false h = record {
  wide = omega (arith, h.wide);
  high = omega (arith, h.high);
}

pub quarter-contain :
    (b : Bound) (p : Point) (at_left at_top : Bool)
    → contain b p ≡ true
    → leb p.x (center b).x ≡ at_left
    → leb p.y (center b).y ≡ at_top
    → contain (quarter b at_left at_top) p ≡ true
unfolding contain
quarter-contain b p true true h l t = ground arith
quarter-contain b p true false h l t = ground arith
quarter-contain b p false true h l t = ground arith
quarter-contain b p false false h l t = ground arith

pub child-IsQuad :
    (b b' : Bound) (n : ℕ) (at_left at_top : Bool) (t0 t1 t2 t3 : Node)
    → IsQuad b (inter b' n t0 t1 t2 t3)
    → IsQuad (quarter b at_left at_top) (child at_left at_top t0 t1 t2 t3)
child-IsQuad b b' n true true t0 t1 t2 t3 (e, c, q0, q1, q2, q3) = q0
child-IsQuad b b' n true false t0 t1 t2 t3 (e, c, q0, q1, q2, q3) = q1
child-IsQuad b b' n false true t0 t1 t2 t3 (e, c, q0, q1, q2, q3) = q2
child-IsQuad b b' n false false t0 t1 t2 t3 (e, c, q0, q1, q2, q3) = q3

pub length_four :
    (a b c d : List Item)
    → length (a ++ (b ++ (c ++ d))) ≡ length a + length b + length c + length d
length_four a b c d = omega (
  arith,
  length-append {0} a (b ++ (c ++ d)),
  length-append {0} b (c ++ d),
  length-append {0} c d,
)

count_four :
    (P : Item → Bool) (a b c d : List Item)
    → count_if P (a ++ (b ++ (c ++ d))) ≡ count_if P a + count_if P b + count_if P c + count_if P d
count_four P a b c d = omega (
  arith,
  count_if-append {0} P a (b ++ (c ++ d)),
  count_if-append {0} P b (c ++ d),
  count_if-append {0} P c d,
)

-- Four children that have one point more together, or as many.
four-IsGrown :
    (b b' : Bound) (n : ℕ) (t0 t1 t2 t3 u0 u1 u2 u3 : Node) (new : Item) (ok : Bool)
    → b' ≡ b
    → n ≡ length (items (inter b' n t0 t1 t2 t3))
    → IsQuad (quarter b true true) u0
    → IsQuad (quarter b true false) u1
    → IsQuad (quarter b false true) u2
    → IsQuad (quarter b false false) u3
    → length (items u0) + length (items u1) + length (items u2) + length (items u3)
      ≡ length (items t0)
        + length (items t1)
        + length (items t2)
        + length (items t3)
        + (if ok then 1 else 0)
    → ((P : Item → Bool)
        → count_if P (items u0)
            + count_if P (items u1)
            + count_if P (items u2)
            + count_if P (items u3)
          ≡ count_if P (items t0)
            + count_if P (items t1)
            + count_if P (items t2)
            + count_if P (items t3)
            + (if ok then count_if P (new ∷ []) else 0))
    → IsGrown b (inter b' n t0 t1 t2 t3) new ok (inter b' (if ok then n + 1 else n) u0 u1 u2 u3)
four-IsGrown b b' n t0 t1 t2 t3 u0 u1 u2 u3 new ok e c q0 q1 q2 q3 m tally =
    let four = length_four (items t0) (items t1) (items t2) (items t3) in
    let four' = length_four (items u0) (items u1) (items u2) (items u3) in
    record {
      quad = (e, ground (arith, c, four, four', m), q0, q1, q2, q3);
      measure = ground (arith, four, four', m);
      tally = λ P. ground (
        arith,
        tally P,
        count_four P (items t0) (items t1) (items t2) (items t3),
        count_four P (items u0) (items u1) (items u2) (items u3),
      );
    }

-- A child that has grown makes its node grow.
pub with_child-IsAdded :
    (b b' : Bound) (n : ℕ) (at_left at_top : Bool) (t0 t1 t2 t3 : Node) (new : Item)
    (r : Option (Bool × Node))
    → IsQuad b (inter b' n t0 t1 t2 t3)
    → IsAdded (quarter b at_left at_top) (child at_left at_top t0 t1 t2 t3) new r
    → IsAddedInside b
        (inter b' n t0 t1 t2 t3)
        new
        (r >>= λ s. some (with_child b' n at_left at_top t0 t1 t2 t3 s))
with_child-IsAdded b b' n true true t0 t1 t2 t3 new none q h = h
with_child-IsAdded b b' n true true t0 t1 t2 t3 new (some (ok, t)) (e, c, q0, q1, q2, q3) h = (
  record {},
  four-IsGrown b b' n t0 t1 t2 t3 t t1 t2 t3 new ok e c h.quad q1 q2 q3 (ground (arith, h.measure))
      (λ P. ground (arith, h.tally P)),
)
with_child-IsAdded b b' n true false t0 t1 t2 t3 new none q h = h
with_child-IsAdded b b' n true false t0 t1 t2 t3 new (some (ok, t)) (e, c, q0, q1, q2, q3) h = (
  record {},
  four-IsGrown b b' n t0 t1 t2 t3 t0 t t2 t3 new ok e c q0 h.quad q2 q3 (ground (arith, h.measure))
      (λ P. ground (arith, h.tally P)),
)
with_child-IsAdded b b' n false true t0 t1 t2 t3 new none q h = h
with_child-IsAdded b b' n false true t0 t1 t2 t3 new (some (ok, t)) (e, c, q0, q1, q2, q3) h = (
  record {},
  four-IsGrown b b' n t0 t1 t2 t3 t0 t1 t t3 new ok e c q0 q1 h.quad q3 (ground (arith, h.measure))
      (λ P. ground (arith, h.tally P)),
)
with_child-IsAdded b b' n false false t0 t1 t2 t3 new none q h = h
with_child-IsAdded b b' n false false t0 t1 t2 t3 new (some (ok, t)) (e, c, q0, q1, q2, q3) h = (
  record {},
  four-IsGrown b b' n t0 t1 t2 t3 t0 t1 t2 t new ok e c q0 q1 q2 h.quad (ground (arith, h.measure))
      (λ P. ground (arith, h.tally P)),
)
