-- ===== src/SearchTree/Iterations.antt =====
-- tree.h: the walks with a stack or a queue. A loop runs on fuel, one for each node taken; `none` is a
-- loop that is still running, a failed assertion, or a null pointer that is followed.
use xteam.Prelude.{
  ℕ, zero, suc, Bool, true, false, ◌||◌, Option, none, some, List, [], ◌∷◌, ◌++◌, ◌==◌,
  if◌then◌else◌, ◌>>=◌,
}
use xteam.SearchTree.Types.{Tree, null, node}

module _ {T : Type 0} where
  -- The inner loop down the left children; the last pointer pushed is in front.
  unfoldable pub push_left : Tree T → List (Tree T) → List (Tree T)
  push_left null stack = stack
  push_left (node x l r) stack = push_left l (node x l r ∷ stack)

  -- `MidTraverIteration`
  unfoldable pub mid_traver_iteration : ℕ → Tree T → List (Tree T) → Option (List T)
  unfolding push_left
  mid_traver_iteration zero t stack = none
  mid_traver_iteration (suc fuel) t stack = elim (push_left t stack) [
    | [] ↦ some []
    | null ∷ rest ↦ none
    | node x l r ∷ rest ↦ mid_traver_iteration fuel r rest >>= λ out. some (x ∷ out)
  ]

  -- A push under `if (p)`, at the end where the loop pops,
  abbrev pub push_some : Tree T → List (Tree T) → List (Tree T)
  push_some null stack = stack
  push_some (node x l r) stack = node x l r ∷ stack

  -- and at the other end.
  abbrev pub enqueue_some : List (Tree T) → Tree T → List (Tree T)
  enqueue_some queue null = queue
  enqueue_some queue (node x l r) = queue ++ node x l r ∷ []

  -- The loop of `FirstTraverIteration`, which prints a node before it pushes the children.
  unfoldable pub first_loop : ℕ → List (Tree T) → Option (List T)
  first_loop zero stack = none
  first_loop (suc fuel) [] = some []
  first_loop (suc fuel) (null ∷ stack) = none
  first_loop (suc fuel) (node x l r ∷ stack) =
      first_loop fuel (push_some l (push_some r stack)) >>= λ out. some (x ∷ out)

  -- `FirstTraverIteration`
  unfoldable pub first_traver_iteration : ℕ → Tree T → Option (List T)
  unfolding first_loop
  first_traver_iteration fuel t = first_loop fuel (t ∷ [])

  -- `BFIteration`
  unfoldable pub bf_iteration : ℕ → List (Tree T) → Option (List T)
  bf_iteration zero queue = none
  bf_iteration (suc fuel) [] = some []
  bf_iteration (suc fuel) (null ∷ queue) = none
  bf_iteration (suc fuel) (node x l r ∷ queue) =
      bf_iteration fuel (enqueue_some (enqueue_some queue l) r) >>= λ out. some (x ∷ out)

  -- The loop of `DFIteration`, of what is printed so far.
  unfoldable pub df_loop : ℕ → List (Tree T) → List T → Option (List T)
  df_loop zero stack out = none
  df_loop (suc fuel) [] out = some out
  df_loop (suc fuel) (null ∷ stack) out = none
  df_loop (suc fuel) (node x l r ∷ stack) out =
      df_loop fuel (push_some l (push_some r stack)) (out ++ x ∷ [])

  -- `DFIteration`
  unfoldable pub df_iteration : ℕ → Tree T → Option (List T)
  unfolding df_loop
  df_iteration fuel null = none
  df_iteration fuel (node x l r) = df_loop fuel (node x l r ∷ []) []

module _ {T : Type 0} where
  -- The address of a node, in a tree whose values come with their nodes' addresses; 0 is `NULL`.
  abbrev pub address : Tree (ℕ × T) → ℕ
  address null = 0
  address (node (a, x) l r) = a

  abbrev pub is_null : Tree (ℕ × T) → Bool
  is_null null = true
  is_null (node x l r) = false

  -- The loops of `LastTraverIteration` once the left children are pushed; `previous` is `preVisit`.
  unfoldable pub last_loop : ℕ → List (Tree (ℕ × T)) → ℕ → Option (List T)
  unfolding push_left
  last_loop zero stack previous = none
  last_loop (suc fuel) [] previous = some []
  last_loop (suc fuel) (null ∷ stack) previous = none
  last_loop (suc fuel) (node (a, x) l r ∷ stack) previous =
      let pop = last_loop fuel stack a >>= λ out. some (x ∷ out) in
      let descend = last_loop fuel (push_left r (node (a, x) l r ∷ stack)) previous in
      if is_null r || (address r == previous) then pop else descend

  -- `LastTraverIteration`
  unfoldable pub last_traver_iteration : ℕ → Tree (ℕ × T) → Option (List T)
  unfolding last_loop push_left
  last_traver_iteration fuel t = last_loop fuel (push_left t []) 0
