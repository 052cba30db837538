-- ===== src/KdTree/Reports.antt =====
-- kdtree.c: what the range search reports.
use mathlib.Core.Bool.{cond}
use xteam.Prelude.{
  ℕ, ◌+◌, ◌≤◌, ◌≡◌, Bool, true, false, Option, none, some, List, [], ◌∷◌, arith, if◌then◌else◌,
  length, count_if,
}
use xteam.Scalar.{Scalar, le}
use xteam.KdTree.Types.{ok, Entry, ResNode, Pool}
use xteam.KdTree.Results.{insert_sorted, rlist_insert}
use xteam.KdTree.Search.{Search, descend, visit}

-- What `Q` says of the number that a search returns, if it returns one.
abbrev pub OnSome : Option ℕ → (ℕ → Type 0) → Type 0
OnSome none Q = Unit
OnSome (some k) Q = Q k

module _ {R D : Type 0} where
  -- How many of the results stand for nodes that pass a test.
  abbrev pub reported : (Entry R D → Bool) → List (ResNode R D) → ℕ
  reported P l = count_if (λ n. P n.entry) l

  -- A search that succeeds returns how many nodes it adds to the list, of which at least `lo` and
  -- at most `hi` pass `P`.
  abbrev pub Reports : (Entry R D → Bool) → ℕ → ℕ → Search R D → Type 0
  Reports P lo hi f =
      (l : List (ResNode R D)) (p : Pool)
      → OnSome (f l p).0 (λ k.
        (reported P l + lo ≤ reported P (f l p).1)
        × (reported P (f l p).1 ≤ reported P l + hi)
        × (length (f l p).1 ≡ length l + k))

  pub Reports-null : (P : Entry R D → Bool) → Reports P 0 0 (λ l p. (some 0, l, p))
  Reports-null P l p = omega arith

  pub Reports-cond :
      (P : Entry R D → Bool) (t : Bool) (f g : Search R D) (a a' b b' : ℕ)
      → Reports P a a' f
      → Reports P b b' g
      → Reports P (cond t a b) (cond t a' b') (cond t f g)
  Reports-cond P true f g a a' b b' hf hg = hf
  Reports-cond P false f g a a' b b' hf hg = hg

  descend-Reports :
      (P : Entry R D → Bool) (near far : Search R D) (wide : Bool) (a a' b b' added : ℕ)
      (l : List (ResNode R D)) (p : Pool)
      → Reports P a a' near
      → Reports P b b' far
      → (wide ≡ false → b ≡ 0)
      → OnSome (descend near far wide added l p).0 (λ k.
        (reported P l + a + b ≤ reported P (descend near far wide added l p).1)
        × (reported P (descend near far wide added l p).1 ≤ reported P l + a' + b')
        × (length (descend near far wide added l p).1 + added ≡ length l + k))
  unfolding descend
  descend-Reports P near far wide a a' b b' added l p hn hf hb =
      ground (arith, hn l p, hf (near l p).1 (near l p).2)

module _ {R D : Type 0} ⦃s : Scalar R⦄ where
  reported-insert_sorted :
      (P : Entry R D → Bool) (n : ResNode R D) (l : List (ResNode R D))
      → (reported P (insert_sorted n l) ≡ reported P (n ∷ l))
        × (length (insert_sorted n l) ≡ length l + 1)
  unfolding insert_sorted
  reported-insert_sorted P n [] = ground arith
  reported-insert_sorted P n (r ∷ rs) = ground (arith, reported-insert_sorted P n rs)

  reported-rlist_insert :
      (P : Entry R D → Bool) (l : List (ResNode R D)) (e : Entry R D) (d : R) (p : Pool)
      → (rlist_insert l e d p).0 ≡ ok
      → (reported P (rlist_insert l e d p).1 ≡ reported P l + count_if P (e ∷ []))
        × (length (rlist_insert l e d p).1 ≡ length l + 1)
  unfolding rlist_insert
  reported-rlist_insert P l e d p =
      ground (arith, reported-insert_sorted P (record { entry = e; dist_sq = d }) l)

  -- One node: `c` and `c'` bound what it adds itself.
  pub visit-Reports :
      (P : Entry R D → Bool) (e : Entry R D) (dist range : R) (ordered : Bool) (dx : R)
      (near far : Search R D) (a a' b b' c c' : ℕ)
      → Reports P a a' near
      → Reports P b b' far
      → (s.lt (s.abs dx) range ≡ false → b ≡ 0)
      → (le dist (s.mul range range) ≡ true
          → (c ≤ count_if P (e ∷ [])) × (count_if P (e ∷ []) ≤ c'))
      → (le dist (s.mul range range) ≡ false → c ≡ 0)
      → Reports P (c + (a + b)) (c' + (a' + b')) (visit e dist range ordered dx near far)
  unfolding visit
  visit-Reports P e dist range ordered dx near far a a' b b' c c' hn hf hb h1 h0 l p =
      let wide = s.lt (s.abs dx) range in
      let d = if ordered then dist else s.minus_one in
      let r = rlist_insert l e d p in
      ground (
        arith,
        reported-rlist_insert P l e d p,
        descend-Reports P near far wide a a' b b' 0 l p hn hf hb,
        descend-Reports P near far wide a a' b b' 1 r.1 r.2 hn hf hb,
      )
