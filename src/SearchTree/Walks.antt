-- ===== src/SearchTree/Walks.antt =====
-- tree.h: the walks with a stack print what the recursive walks print.
use xteam.Prelude.{
  ℕ, zero, suc, ◌+◌, ◌≡◌, refl, sym, ap, ◌∙◌, ◌≢◌, Option, none, some, List, [], ◌∷◌, ◌++◌, arith,
  ◌>>=◌,
}
use xteam.SearchTree.Types.{Tree, null, node, size, first_traver, mid_traver}
use xteam.SearchTree.Iterations.{
  push_left, mid_traver_iteration, push_some, first_loop, first_traver_iteration, df_loop,
  df_iteration,
}

module _ {T : Type 0} where
  pub append_assoc : (xs ys zs : List T) → (xs ++ ys) ++ zs ≡ xs ++ (ys ++ zs)
  append_assoc [] ys zs = refl
  append_assoc (x ∷ xs) ys zs = ap (λ l. x ∷ l) (append_assoc xs ys zs)

  pub append_nil : (xs : List T) → xs ++ [] ≡ xs
  append_nil [] = refl
  append_nil (x ∷ xs) = ap (λ l. x ∷ l) (append_nil xs)

  -- What is printed before the rest.
  abbrev pub prepend : List T → Option (List T) → Option (List T)
  prepend xs none = none
  prepend xs (some ys) = some (xs ++ ys)

  pub prepend_nil : (o : Option (List T)) → prepend [] o ≡ o
  prepend_nil none = refl
  prepend_nil (some ys) = refl

  pub prepend-append :
      (xs ys : List T) (o : Option (List T)) → prepend xs (prepend ys o) ≡ prepend (xs ++ ys) o
  prepend-append xs ys none = refl
  prepend-append xs ys (some zs) = ap (λ l. some l) (sym (append_assoc xs ys zs))

  pub prepend-head :
      (x : T) (xs : List T) (o : Option (List T))
      → (prepend xs o >>= λ out. some (x ∷ out)) ≡ prepend (x ∷ xs) o
  prepend-head x xs none = refl
  prepend-head x xs (some ys) = refl

  pub prepend-one :
      (x : T) (o : Option (List T)) → prepend (x ∷ []) o ≡ (o >>= λ out. some (x ∷ out))
  prepend-one x none = refl
  prepend-one x (some ys) = refl

  mid_loop_lem :
      (t : Tree T) (n : ℕ) (stack : List (Tree T))
      → mid_traver_iteration (size t + suc n) t stack
        ≡ prepend (mid_traver t) (mid_traver_iteration (suc n) null stack)
  unfolding mid_traver_iteration push_left mid_traver
  mid_loop_lem null n stack =
      let e : 0 + suc n ≡ suc n = omega arith in
      ap (λ fuel. mid_traver_iteration fuel null stack) e
      ∙ sym (prepend_nil (mid_traver_iteration (suc n) null stack))
  mid_loop_lem (node x l r) n stack =
      let e : suc (size l + size r) + suc n ≡ suc (size l + suc (size r + n)) = omega arith in
      let e' : suc (size l + suc (size r + n)) ≡ size l + suc (size r + suc n) = omega arith in
      let rest = mid_traver_iteration (suc n) null stack in
      ap (λ fuel. mid_traver_iteration fuel (node x l r) stack) e
      ∙ ap (λ fuel. mid_traver_iteration fuel l (node x l r ∷ stack)) e'
      ∙ mid_loop_lem l (size r + suc n) (node x l r ∷ stack)
      ∙ ap (λ o. prepend (mid_traver l) (o >>= λ out. some (x ∷ out))) (mid_loop_lem r n stack)
      ∙ ap (prepend (mid_traver l)) (prepend-head x (mid_traver r) rest)
      ∙ prepend-append (mid_traver l) (x ∷ mid_traver r) rest

  -- `MidTraverIteration` prints what `MidTraver` prints, with fuel above the number of nodes.
  pub mid_traver_iteration_lem :
      (t : Tree T) (n : ℕ) → mid_traver_iteration (size t + suc n) t [] ≡ some (mid_traver t)
  unfolding mid_traver_iteration push_left
  mid_traver_iteration_lem t n = mid_loop_lem t n [] ∙ ap some (append_nil (mid_traver t))

  first_loop_lem :
      (t : Tree T) (n : ℕ) (stack : List (Tree T))
      → first_loop (size t + n) (push_some t stack) ≡ prepend (first_traver t) (first_loop n stack)
  unfolding first_loop first_traver
  first_loop_lem null n stack =
      let e : 0 + n ≡ n = omega arith in
      ap (λ fuel. first_loop fuel stack) e ∙ sym (prepend_nil (first_loop n stack))
  first_loop_lem (node x l r) n stack =
      let e : suc (size l + size r) + n ≡ suc (size l + (size r + n)) = omega arith in
      let rest = first_loop n stack in
      ap (λ fuel. first_loop fuel (node x l r ∷ stack)) e
      ∙ ap (λ o. o >>= λ out. some (x ∷ out)) (first_loop_lem l (size r + n) (push_some r stack))
      ∙ ap (λ o. prepend (first_traver l) o >>= λ out. some (x ∷ out)) (first_loop_lem r n stack)
      ∙ ap (λ o. o >>= λ out. some (x ∷ out))
          (prepend-append (first_traver l) (first_traver r) rest)
      ∙ prepend-head x (first_traver l ++ first_traver r) rest

  -- `FirstTraverIteration` of a tree that is not empty prints what `FirstTraver` prints, with fuel above
  -- the number of nodes.
  pub first_traver_iteration_lem :
      (t : Tree T) (n : ℕ)
      → t ≢ null
      → first_traver_iteration (size t + suc n) t ≡ some (first_traver t)
  unfolding first_traver_iteration first_loop
  first_traver_iteration_lem null n some_node = absurd (some_node refl)
  first_traver_iteration_lem (node x l r) n some_node =
      first_loop_lem (node x l r) (suc n) [] ∙ ap some (append_nil (first_traver (node x l r)))

  df_loop_lem :
      (n : ℕ) (stack : List (Tree T)) (out : List T)
      → df_loop n stack out ≡ prepend out (first_loop n stack)
  unfolding df_loop first_loop
  df_loop_lem zero stack out = refl
  df_loop_lem (suc n) [] out = ap some (sym (append_nil out))
  df_loop_lem (suc n) (null ∷ stack) out = refl
  df_loop_lem (suc n) (node x l r ∷ stack) out =
      let e = first_loop n (push_some l (push_some r stack)) in
      df_loop_lem n (push_some l (push_some r stack)) (out ++ x ∷ [])
      ∙ sym (prepend-append out (x ∷ []) e)
      ∙ ap (prepend out) (prepend-one x e)

  -- `DFIteration` prints what `FirstTraver` prints, with fuel above the number of nodes.
  pub df_iteration_lem :
      (t : Tree T) (n : ℕ) → t ≢ null → df_iteration (size t + suc n) t ≡ some (first_traver t)
  unfolding df_iteration first_traver_iteration
  df_iteration_lem null n some_node = absurd (some_node refl)
  df_iteration_lem (node x l r) n some_node =
      df_loop_lem (size (node x l r) + suc n) (node x l r ∷ []) []
      ∙ prepend_nil (first_loop (size (node x l r) + suc n) (node x l r ∷ []))
      ∙ first_traver_iteration_lem (node x l r) n some_node
