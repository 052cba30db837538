-- ===== src/Avl/Heights.antt =====
-- avl_tree.h: heights, and how an insertion changes them.
use xteam.Prelude.{ℕ, ◌+◌, ◌≤◌, ◌≡◌, ap, ◌∙◌, ◌⊎◌, inl, inr, true, false, Option, some, arith}
use xteam.Arrays.Order.{Order}
use xteam.Avl.Types.{
  Tree, null, node, max, get_height, get_tree_balance, is_balance, with_height, set_height,
}

pub max_left : (a b : ℕ) → b ≤ a → max a b ≡ a
unfolding max
max_left a b h = ground arith

pub max_right : (a b : ℕ) → a ≤ b → max a b ≡ b
unfolding max
max_right a b h = ground arith

pub max_near :
    (a b : ℕ)
    → a ≤ b + 1
    → b ≤ a + 1
    → (a ≤ max a b) × (b ≤ max a b) × (max a b ≤ a + 1) × (max a b ≤ b + 1)
unfolding max
max_near a b h k = ground arith

-- The height above a child that grew, by 1 at most, and is not too high.
pub height_grown :
    (h n n' m : ℕ)
    → h ≡ max n m + 1
    → (n' ≡ n) ⊎ (n' ≡ n + 1)
    → n ≤ m + 1
    → m ≤ n + 1
    → n' ≤ m + 1
    → (max n' m + 1 ≡ h) ⊎ ((max n' m + 1 ≡ h + 1) × (n' ≡ m + 1))
unfolding max
height_grown h n n' m e g a b c = ground arith

pub max_swap : (a b : ℕ) → max a b ≡ max b a
unfolding max
max_swap a b = ground arith

module _ {T : Type 0} where
  -- The heights are right, and those of a node's children differ by 1 at most.
  abbrev pub IsAvl : Tree T → Type 0
  IsAvl null = Unit
  IsAvl (node x h l r) =
      (h ≡ max (get_height l) (get_height r) + 1)
      × (get_height l ≤ get_height r + 1)
      × (get_height r ≤ get_height l + 1)
      × IsAvl l
      × IsAvl r

module _ {T : Type 0} ⦃o : Order T⦄ where
  -- How an insertion of `e` changes the height, and which side is higher where it did.
  abbrev pub IsGrown : T → ℕ → Tree T → Type 0
  IsGrown e n null = ⊥
  IsGrown e n (node x h l r) =
      (h ≡ n)
      ⊎ ((n ≡ 0) × (h ≡ 1))
      ⊎ ((h ≡ n + 1)
          × (((o.lt e x ≡ true) × (get_height l ≡ get_height r + 1))
              ⊎ ((o.lt x e ≡ true) × (get_height r ≡ get_height l + 1))))

  pub is_balance_lem :
      (l r : Tree T)
      → is_balance l r ≡ true
      → (get_height l ≤ get_height r + 1) × (get_height r ≤ get_height l + 1)
  unfolding is_balance get_tree_balance
  is_balance_lem l r h = ground arith

  pub unbalanced_lem :
      (l r : Tree T)
      → is_balance l r ≡ false
      → (get_height r + 2 ≤ get_height l) ⊎ (get_height l + 2 ≤ get_height r)
  unfolding is_balance get_tree_balance
  unbalanced_lem l r h = ground arith

  pub grown-height :
      (e : T) (n : ℕ) (t : Tree T) → IsGrown e n t → (get_height t ≡ n) ⊎ (get_height t ≡ n + 1)
  grown-height e n null grown = absurd grown
  grown-height e n (node x h l r) grown = ground arith

  -- The height over a balanced node, on the side of the value that was inserted.
  pub left-IsGrown :
      (e x : T) (h n : ℕ) (l' r : Tree T)
      → h ≡ max n (get_height r) + 1
      → (get_height l' ≡ n) ⊎ (get_height l' ≡ n + 1)
      → n ≤ get_height r + 1
      → get_height r ≤ n + 1
      → get_height l' ≤ get_height r + 1
      → o.lt e x ≡ true
      → IsGrown e h (with_height x l' r)
  left-IsGrown e x h n l' r a b c d f less =
      let grown = height_grown h n (get_height l') (get_height r) a b c d f in
      elim grown [ inl q ↦ inl q | inr (q, w) ↦ inr (inr (q, inl (less, w))) ]

  pub right-IsGrown :
      (e x : T) (h n : ℕ) (l r' : Tree T)
      → h ≡ max (get_height l) n + 1
      → (get_height r' ≡ n) ⊎ (get_height r' ≡ n + 1)
      → n ≤ get_height l + 1
      → get_height l ≤ n + 1
      → get_height r' ≤ get_height l + 1
      → o.lt x e ≡ true
      → IsGrown e h (with_height x l r')
  right-IsGrown e x h n l r' a b c d f less =
      let grown =
        height_grown h n (get_height r') (get_height l) (a ∙ ap suc' (max_swap (get_height l) n)) b
          c d f in
      let turned = max_swap (get_height l) (get_height r') in
      elim grown [ inl q ↦ inl (rw turned q) | inr (q, w) ↦ inr (inr (rw turned q, inr (less, w))) ]
    where
      suc' : ℕ → ℕ
      suc' k = k + 1

  -- The result of the rebalancing: a node with a right height in a balanced tree, as the insertion of
  -- `e` in a tree of height `h` leaves it.
  abbrev pub IsRebalanced : T → ℕ → Option (Tree T) → Type 0
  IsRebalanced e h result =
      (t : Tree T) × (result ≡ some t) × IsAvl (set_height t) × IsGrown e h (set_height t)
