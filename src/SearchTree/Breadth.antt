-- ===== src/SearchTree/Breadth.antt =====
-- tree.h: `BFIteration` prints level by level.
use xteam.Prelude.{
  ℕ, zero, suc, ◌+◌, ◌<◌, ◌≡◌, refl, sym, ap, ◌∙◌, ◌≢◌, some, List, [], ◌∷◌, ◌++◌, arith, length,
  ◌>>=◌,
}
use xteam.SearchTree.Types.{Tree, null, node, size, depth}
use xteam.SearchTree.Iterations.{bf_iteration, enqueue_some}
use xteam.SearchTree.Walks.{append_assoc, append_nil, prepend, prepend-head, prepend_nil}

module _ {T : Type 0} where
  -- The values so many steps below the root, from the left to the right.
  abbrev pub level : ℕ → Tree T → List T
  level n null = []
  level zero (node x l r) = x ∷ []
  level (suc n) (node x l r) = level n l ++ level n r

  -- The values of all trees at a level, and of the levels from one on, so many.
  abbrev pub level_all : ℕ → List (Tree T) → List T
  level_all n [] = []
  level_all n (t ∷ ts) = level n t ++ level_all n ts

  abbrev pub levels : ℕ → ℕ → List (Tree T) → List T
  levels zero n ts = []
  levels (suc k) n ts = level_all n ts ++ levels k (suc n) ts

  -- The nodes one step below, in the order in which they are pushed.
  abbrev children : List (Tree T) → List (Tree T)
  children [] = []
  children (null ∷ ts) = children ts
  children (node x l r ∷ ts) = enqueue_some (enqueue_some [] l) r ++ children ts

  enqueue_both :
      (us : List (Tree T)) (l r : Tree T)
      → enqueue_some (enqueue_some us l) r ≡ us ++ enqueue_some (enqueue_some [] l) r
  enqueue_both us null null = sym (append_nil us)
  enqueue_both us null (node y a b) = refl
  enqueue_both us (node x a b) null = refl
  enqueue_both us (node x a b) (node y c d) = append_assoc us (node x a b ∷ []) (node y c d ∷ [])

  IsNodes : List (Tree T) → Type 0
  IsNodes [] = Unit
  IsNodes (null ∷ ts) = ⊥
  IsNodes (node x l r ∷ ts) = IsNodes ts

  -- One level is printed while the next is pushed.
  bf_level_lem :
      (ts us : List (Tree T)) (n : ℕ)
      → IsNodes ts
      → bf_iteration (length ts + n) (ts ++ us)
        ≡ prepend (level_all 0 ts) (bf_iteration n (us ++ children ts))
  unfolding bf_iteration IsNodes
  bf_level_lem [] us n nodes =
      let e : 0 + n ≡ n = omega arith in
      ap (λ fuel. bf_iteration fuel us) e
      ∙ sym (prepend_nil (bf_iteration n us))
      ∙ sym (ap (λ queue. prepend [] (bf_iteration n queue)) (append_nil us))
  bf_level_lem (null ∷ ts) us n nodes = absurd nodes
  bf_level_lem (node x l r ∷ ts) us n nodes =
      let e : suc (length ts) + n ≡ suc (length ts + n) = omega arith in
      let both = enqueue_some (enqueue_some [] l) r in
      let rest = bf_iteration n (us ++ (both ++ children ts)) in
      ap (λ fuel. bf_iteration fuel (node x l r ∷ (ts ++ us))) e
      ∙ ap (λ queue. bf_iteration (length ts + n) queue >>= λ out. some (x ∷ out))
          (enqueue_both (ts ++ us) l r ∙ append_assoc ts us both)
      ∙ ap (λ o. o >>= λ out. some (x ∷ out)) (bf_level_lem ts (us ++ both) n nodes)
      ∙ ap (λ queue. prepend (level_all 0 ts) (bf_iteration n queue) >>= λ out. some (x ∷ out))
          (append_assoc us both (children ts))
      ∙ prepend-head x (level_all 0 ts) rest

  level_all-children :
      (n : ℕ) (ts : List (Tree T)) → level_all (suc n) ts ≡ level_all n (children ts)
  level_all-children n [] = refl
  level_all-children n (null ∷ ts) = level_all-children n ts
  level_all-children n (node x null null ∷ ts) = level_all-children n ts
  level_all-children n (node x null (node y a b) ∷ ts) =
      ap (λ xs. level n (node y a b) ++ xs) (level_all-children n ts)
  level_all-children n (node x (node y a b) null ∷ ts) =
      ap (λ xs. xs ++ level_all (suc n) ts) (append_nil (level n (node y a b)))
      ∙ ap (λ xs. level n (node y a b) ++ xs) (level_all-children n ts)
  level_all-children n (node x (node y a b) (node z c d) ∷ ts) =
      append_assoc (level n (node y a b)) (level n (node z c d)) (level_all (suc n) ts)
      ∙ ap (λ xs. level n (node y a b) ++ (level n (node z c d) ++ xs)) (level_all-children n ts)

  levels-children : (k n : ℕ) (ts : List (Tree T)) → levels k (suc n) ts ≡ levels k n (children ts)
  levels-children zero n ts = refl
  levels-children (suc k) n ts =
      ap (λ xs. xs ++ levels k (suc (suc n)) ts) (level_all-children n ts)
      ∙ ap (λ xs. level_all n (children ts) ++ xs) (levels-children k (suc n) ts)

  -- Trees that are not null, of less than such a depth.
  IsShallow : ℕ → List (Tree T) → Type 0
  IsShallow k [] = Unit
  IsShallow k (null ∷ ts) = ⊥
  IsShallow k (node x l r ∷ ts) = (depth (node x l r) < k) × IsShallow k ts

  IsShallow-IsNodes : (k : ℕ) (ts : List (Tree T)) → IsShallow k ts → IsNodes ts
  unfolding IsShallow IsNodes
  IsShallow-IsNodes k [] h = record {}
  IsShallow-IsNodes k (null ∷ ts) h = h
  IsShallow-IsNodes k (node x l r ∷ ts) (here, h) = IsShallow-IsNodes k ts h

  children-IsShallow :
      (k : ℕ) (ts : List (Tree T)) → IsShallow (suc k) ts → IsShallow k (children ts)
  unfolding IsShallow depth
  children-IsShallow k [] h = record {}
  children-IsShallow k (null ∷ ts) h = absurd h
  children-IsShallow k (node x null null ∷ ts) (here, h) = children-IsShallow k ts h
  children-IsShallow k (node x null (node y a b) ∷ ts) (here, h) =
      (ground arith, children-IsShallow k ts h)
  children-IsShallow k (node x (node y a b) null ∷ ts) (here, h) =
      (ground arith, children-IsShallow k ts h)
  children-IsShallow k (node x (node y a b) (node z c d) ∷ ts) (here, h) =
      (ground arith, (ground arith, children-IsShallow k ts h))

  size_all : List (Tree T) → ℕ
  size_all [] = 0
  size_all (t ∷ ts) = size t + size_all ts

  size_all-children :
      (ts : List (Tree T)) → IsNodes ts → size_all ts ≡ length ts + size_all (children ts)
  unfolding size_all IsNodes
  size_all-children [] h = omega arith
  size_all-children (null ∷ ts) h = absurd h
  size_all-children (node x null null ∷ ts) h = omega (arith, size_all-children ts h)
  size_all-children (node x null (node y a b) ∷ ts) h = omega (arith, size_all-children ts h)
  size_all-children (node x (node y a b) null ∷ ts) h = omega (arith, size_all-children ts h)
  size_all-children (node x (node y a b) (node z c d) ∷ ts) h =
      omega (arith, size_all-children ts h)

  bf_levels_lem :
      (k : ℕ) (ts : List (Tree T)) (n : ℕ)
      → IsShallow k ts
      → bf_iteration (size_all ts + suc n) ts ≡ some (levels k 0 ts)
  unfolding IsShallow bf_iteration size_all
  bf_levels_lem zero [] n h =
      let e : 0 + suc n ≡ suc n = omega arith in ap (λ fuel. bf_iteration fuel []) e
  bf_levels_lem zero (null ∷ ts) n h = absurd h
  bf_levels_lem zero (node x l r ∷ ts) n (here, h) = absurd (omega (arith, here))
  bf_levels_lem (suc k) ts n h =
      let nodes = IsShallow-IsNodes (suc k) ts h in
      let m = size_all (children ts) + suc n in
      let e : size_all ts + suc n ≡ length ts + m = omega (arith, size_all-children ts nodes) in
      ap (λ fuel. bf_iteration fuel ts) e
      ∙ ap (bf_iteration (length ts + m)) (sym (append_nil ts))
      ∙ bf_level_lem ts [] m nodes
      ∙ ap (prepend (level_all 0 ts)) (bf_levels_lem k (children ts) n (children-IsShallow k ts h))
      ∙ ap (λ xs. some (level_all 0 ts ++ xs)) (sym (levels-children k 0 ts))

  -- `BFIteration` of a tree that is not empty prints the levels from the root's down to the one that
  -- `Depth` tells, each from the left to the right, with fuel above the number of nodes.
  pub bf_iteration_lem :
      (t : Tree T) (n : ℕ)
      → t ≢ null
      → bf_iteration (size t + suc n) (t ∷ []) ≡ some (levels (suc (depth t)) 0 (t ∷ []))
  unfolding IsShallow size_all
  bf_iteration_lem null n some_node = absurd (some_node refl)
  bf_iteration_lem (node x l r) n some_node =
      let t = node x l r in
      let e : size t + suc n ≡ size t + 0 + suc n = omega arith in
      let less : depth t < suc (depth t) = omega arith in
      ap (λ fuel. bf_iteration fuel (t ∷ [])) e
      ∙ bf_levels_lem (suc (depth t)) (t ∷ []) n (less, record {})
