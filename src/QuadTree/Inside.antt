-- ===== src/QuadTree/Inside.antt =====
-- sbd_tree.cpp: the points of a tree that are inside a bound.
use xteam.Prelude.{
  ◌≡◌, refl, ap, ◌∙◌, inl, inr, Bool, true, false, List, [], ◌∷◌, ◌++◌, arith, if◌then◌else◌,
  Bool-cases, All,
}
use xteam.QuadTree.Types.{
  Point, Bound, Item, Node, null, inter, entry, quarter, center, intersect, contain, contain_bound,
}
use xteam.QuadTree.Well.{items, IsChained, IsBound}
use xteam.QuadTree.Kept.{quarter-IsBound}

-- The points inside a bound.
abbrev pub within : Bound → List Item → List Item
within query [] = []
within query (item ∷ rest) =
    let below = within query rest in if contain query item.position then item ∷ below else below

within-append :
    (query : Bound) (xs ys : List Item)
    → within query (xs ++ ys) ≡ within query xs ++ within query ys
within-append query [] ys = refl
within-append query (x ∷ xs) ys = elim (Bool-cases (contain query x.position)) [
  | inl e ↦ rw e (ap (λ l. x ∷ l) (within-append query xs ys))
  | inr e ↦ rw e (within-append query xs ys)
]

pub within_four :
    (query : Bound) (a b c d : List Item)
    → within query (a ++ (b ++ (c ++ d)))
      ≡ within query a ++ (within query b ++ (within query c ++ within query d))
within_four query a b c d =
    within-append query a (b ++ (c ++ d))
    ∙ ap (λ l. within query a ++ l) (within-append query b (c ++ d))
    ∙ ap (λ l. within query a ++ (within query b ++ l)) (within-append query c d)

-- All points are inside a bound.
abbrev IsInside : Bound → List Item → Type 0
IsInside b = All (λ item. contain b item.position ≡ true)

IsInside-append :
    (b : Bound) (xs ys : List Item) → IsInside b xs → IsInside b ys → IsInside b (xs ++ ys)
IsInside-append b [] ys h k = k
IsInside-append b (x ∷ xs) ys (here, h) k = (here, IsInside-append b xs ys h k)

quarter_inside :
    (b : Bound) (p : Point) (at_left at_top : Bool)
    → IsBound b
    → contain (quarter b at_left at_top) p ≡ true
    → contain b p ≡ true
unfolding contain center
quarter_inside b p true true wf h = ground (arith, wf.wide, wf.high)
quarter_inside b p true false wf h = ground (arith, wf.wide, wf.high)
quarter_inside b p false true wf h = ground (arith, wf.wide, wf.high)
quarter_inside b p false false wf h = ground (arith, wf.wide, wf.high)

IsInside-quarter :
    (b : Bound) (at_left at_top : Bool) (xs : List Item)
    → IsBound b
    → IsInside (quarter b at_left at_top) xs
    → IsInside b xs
IsInside-quarter b at_left at_top [] wf h = record {}
IsInside-quarter b at_left at_top (x ∷ xs) wf (here, h) =
    (quarter_inside b x.position at_left at_top wf here, IsInside-quarter b at_left at_top xs wf h)

-- A chain at one place is inside a bound, or not, as its first node is.
abbrev IsTogether : Point → List Item → Type 0
IsTogether p = All (λ other. other.position ≡ p)

IsTogether-IsInside :
    (b : Bound) (p : Point) (chain : List Item)
    → contain b p ≡ true
    → IsTogether p chain
    → IsInside b chain
IsTogether-IsInside b p [] e h = record {}
IsTogether-IsInside b p (x ∷ chain) e (here, h) = (rw here e, IsTogether-IsInside b p chain e h)

pub within_together :
    (query : Bound) (p : Point) (chain : List Item)
    → IsTogether p chain
    → within query chain ≡ (if contain query p then chain else [])
within_together query p [] h = elim (Bool-cases (contain query p)) [
  | inl e ↦ rw e refl
  | inr e ↦ rw e refl
]
within_together query p (x ∷ chain) (here, h) = elim (Bool-cases (contain query p)) [
  | inl e ↦
      let q : contain query x.position ≡ true = rw here e in
      let rest : within query chain ≡ chain = within_together query p chain h ∙ rw e refl in
      rw (q, e) (ap (λ l. x ∷ l) rest)
  | inr e ↦
      let q : contain query x.position ≡ false = rw here e in
      let rest : within query chain ≡ [] = within_together query p chain h ∙ rw e refl in
      rw (q, e) rest
]

pub items-IsInside :
    (be_list : Bool) (b : Bound) (t : Node)
    → IsBound b
    → IsChained be_list b t
    → IsInside b (items t)
items-IsInside be_list b null wf h = record {}
items-IsInside be_list b (entry item chain) wf (inside, e, h) =
    (inside, IsTogether-IsInside b item.position chain inside h)
items-IsInside be_list b (inter b' n t0 t1 t2 t3) wf (e, c, q0, q1, q2, q3) =
    let below = λ (l t : Bool). IsInside-quarter b l t in
    IsInside-append b (items t0) (items t1 ++ (items t2 ++ items t3))
      (below true true (items t0) wf
        (items-IsInside be_list (quarter b true true) t0 (quarter-IsBound b true true wf) q0))
      (IsInside-append b (items t1) (items t2 ++ items t3)
        (below true false (items t1) wf
          (items-IsInside be_list (quarter b true false) t1 (quarter-IsBound b true false wf) q1))
        (IsInside-append b (items t2) (items t3)
          (below false true (items t2) wf
            (items-IsInside be_list (quarter b false true) t2 (quarter-IsBound b false true wf) q2))
          (below false false (items t3) wf (
            items-IsInside be_list (quarter b false false) t3 (quarter-IsBound b false false wf)
              q3))))

-- No point of a bound is in one that does not meet it, and all are in one around it.
pub within_none :
    (b query : Bound) (xs : List Item)
    → intersect b query ≡ false
    → IsInside b xs
    → within query xs ≡ []
within_none b query [] apart h = refl
within_none b query (x ∷ xs) apart (here, h) =
    let e : contain query x.position ≡ false = unfold contain intersect in ground arith in
    rw e (within_none b query xs apart h)

pub within_all :
    (b query : Bound) (xs : List Item)
    → contain_bound query b ≡ true
    → IsInside b xs
    → within query xs ≡ xs
within_all b query [] around h = refl
within_all b query (x ∷ xs) around (here, h) =
    let e : contain query x.position ≡ true = unfold contain contain_bound in ground arith in
    rw e (ap (λ l. x ∷ l) (within_all b query xs around h))
