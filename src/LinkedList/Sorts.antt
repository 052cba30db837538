-- ===== src/LinkedList/Sorts.antt =====
-- list.h: `selectionSort`, `insertionSort` and `reverse`, which move values between nodes or nodes with
-- their values. A loop over the list runs on fuel; `none` is fuel that is used up, or a failed assertion.
use xteam.Prelude.{
  ℕ, zero, suc, ◌+◌, ◌-◌, not, ◌&&◌, Option, none, some, ◌==◌, if◌then◌else◌, ◌>>=◌,
}
use xteam.Arrays.Order.{Order, le}
use xteam.LinkedList.Types.{LinkedList, first, last, swap, walk, insert_as_succ, remove}
use xteam.LinkedList.Finding.{search}

module _ {T : Type 0} where
  -- The loop of `reverse`.
  unfoldable pub reverse_from : ℕ → LinkedList T → ℕ → ℕ → Option (LinkedList T)
  unfolding swap
  reverse_from zero s f l = none
  reverse_from (suc fuel) s f l =
      let rest = reverse_from fuel (swap s f l) (s.succ f) (s.pred l) in
      if not (f == l) && not (s.pred f == l) then rest else some s

  -- `List::reverse`
  unfoldable pub reverse : ℕ → LinkedList T → Option (LinkedList T)
  unfolding reverse_from
  reverse fuel s = reverse_from fuel s (first s) (last s)

module _ {T : Type 0} ⦃o : Order T⦄ where
  -- The inner loop of `selectionSort`: the last node with a value that no other up to `stop` exceeds.
  unfoldable pub max_from : ℕ → LinkedList T → ℕ → ℕ → ℕ → Option ℕ
  max_from zero s ufirst stop p_max = none
  max_from (suc fuel) s ufirst stop p_max =
      let rest =
        max_from fuel s (s.succ ufirst) stop
          (if le (s.val p_max) (s.val ufirst) then ufirst else p_max) in
      if ufirst == stop then some p_max else rest

  -- The outer loop.
  unfoldable pub selection_from : ℕ → LinkedList T → ℕ → ℕ → Option (LinkedList T)
  unfolding max_from swap
  selection_from zero s p ulast = none
  selection_from (suc fuel) s p ulast =
      let turn = max_from fuel s p (s.succ ulast) p >>= λ p_max.
      let s' = if p_max == ulast then s else swap s p_max ulast in
      selection_from fuel s' p (s'.pred ulast) in
      if ulast == p then some s else turn

  -- `List::selectionSort`, of at least one node.
  unfoldable pub selection_sort : ℕ → LinkedList T → ℕ → ℕ → Option (LinkedList T)
  unfolding selection_from walk
  selection_sort fuel s p n = if n == 0 then none else selection_from fuel s p (walk s (n - 1) p)

  -- `List::sort`
  unfoldable pub sort : ℕ → LinkedList T → Option (LinkedList T)
  unfolding selection_sort
  sort fuel s = selection_sort fuel s (first s) s.size

  -- The loop of `insertionSort`.
  unfoldable pub insertion_from : ℕ → LinkedList T → ℕ → ℕ → ℕ → Option (LinkedList T)
  unfolding search insert_as_succ remove
  insertion_from zero s olast ufirst o_count = none
  insertion_from (suc fuel) s olast ufirst o_count =
      let move = λ (pos : ℕ).
        let s' = insert_as_succ s pos (s.val ufirst) in
        remove s' ufirst >>= λ r.
        let (val, s'') = r in insertion_from fuel s'' olast (s'.succ ufirst) (o_count + 1) in
      let stay = insertion_from fuel s (s.succ olast) (s.succ ufirst) (o_count + 1) in
      let turn =
        search s (s.val ufirst) o_count olast >>= λ pos. if pos == olast then stay else move pos in
      if ufirst == s.trailer then some s else turn

  -- `List::insertionSort`, which does not read its second argument.
  unfoldable pub insertion_sort : ℕ → LinkedList T → ℕ → Option (LinkedList T)
  unfolding insertion_from
  insertion_sort fuel s p = insertion_from fuel s p (s.succ p) 1
