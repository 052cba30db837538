-- ===== src/LinkedList/Finding.antt =====
-- list.h: `find`, `search`, `selectMax`, `disordered` and `deduplicate`. A loop over the list runs on
-- fuel; `none` is fuel that is used up, or a failed assertion.
use xteam.Prelude.{
  ℕ, zero, suc, ◌+◌, ◌-◌, Bool, not, ◌&&◌, ◌||◌, Option, none, some, ◌==◌, if◌then◌else◌, ◌>>=◌,
}
use xteam.Arrays.Order.{Order, le}
use xteam.LinkedList.Types.{LinkedList, first, remove}

module _ {T : Type 0} ⦃o : Order T⦄ where
  -- `==`: neither is less.
  abbrev pub equal : T → T → Bool
  equal a b = not (o.lt a b) && not (o.lt b a)

  -- The loop of `find` from behind a node, of so many nodes, with the test behind it.
  unfoldable pub find_from : LinkedList T → T → ℕ → ℕ → ℕ
  find_from s e zero p = 0
  find_from s e (suc n) p =
      let cur = s.pred p in
      let rest = find_from s e n cur in
      if cur == s.trailer
      then cur
      else if equal (s.val cur) e
      then cur
      else if n == 0
      then 0
      else rest

  -- `List::find`, of a value among a node and what is before it.
  unfoldable pub find : LinkedList T → T → ℕ → ℕ → Option ℕ
  unfolding find_from
  find s e n p = if n == 0 || p == 0 then none else some (find_from s e n (s.succ p))

  -- The loop of `search`.
  unfoldable pub search_from : LinkedList T → T → ℕ → ℕ → ℕ
  search_from s e zero p = p
  search_from s e (suc n) p =
      let cur = s.pred p in
      let rest = search_from s e n cur in
      if cur == s.trailer || n == 0 || le (s.val cur) e then cur else rest

  -- `List::search`
  unfoldable pub search : LinkedList T → T → ℕ → ℕ → Option ℕ
  unfolding search_from
  search s e n p = if n == 0 || p == 0 then none else some (search_from s e n (s.succ p))

  -- The loop of `selectMax` behind a node, with so many nodes left.
  unfoldable pub select_max_from : LinkedList T → ℕ → ℕ → T → T
  select_max_from s zero p max_val = max_val
  select_max_from s (suc n) p max_val =
      let cur = s.succ p in
      let rest =
        select_max_from s n cur (if o.lt max_val (s.val cur) then s.val cur else max_val) in
      if cur == s.trailer then max_val else rest

  -- `List::selectMax`, of at least one node.
  unfoldable pub select_max : LinkedList T → ℕ → ℕ → Option T
  unfolding select_max_from
  select_max s p n = if n == 0 then none else some (select_max_from s (n - 1) p (s.val p))

  -- The loop of `disordered`.
  unfoldable pub disordered_from : LinkedList T → ℕ → ℕ → ℕ → Option ℕ
  disordered_from s zero p count = none
  disordered_from s (suc fuel) p count =
      let next = s.succ p in
      let rest =
        disordered_from s fuel next (if o.lt (s.val next) (s.val p) then count + 1 else count) in
      if next == s.trailer then some count else rest

  -- `List::disordered`
  unfoldable pub disordered : ℕ → LinkedList T → Option ℕ
  unfolding disordered_from
  disordered fuel s = disordered_from s fuel (first s) 0

  -- The loop of `deduplicate`: `olast` is the last of the nodes that stay, which are `o_count`.
  unfoldable pub deduplicate_from : ℕ → LinkedList T → ℕ → ℕ → ℕ → ℕ → Option (ℕ × LinkedList T)
  unfolding find remove
  deduplicate_from zero s olast ufirst o_count del_count = none
  deduplicate_from (suc fuel) s olast ufirst o_count del_count =
      let next = s.succ ufirst in
      let drop_it = remove s ufirst >>= λ r.
      let (val, s') = r in deduplicate_from fuel s' olast next o_count (del_count + 1) in
      let keep_it = deduplicate_from fuel s (s.succ olast) next (o_count + 1) del_count in
      let turn =
        find s (s.val ufirst) o_count olast >>= λ pos. if pos == 0 then keep_it else drop_it in
      if ufirst == s.trailer then some (del_count, s) else turn

  -- `List::deduplicate`
  unfoldable pub deduplicate : ℕ → LinkedList T → Option (ℕ × LinkedList T)
  unfolding deduplicate_from
  deduplicate fuel s = deduplicate_from fuel s (first s) (s.succ (first s)) 1 0
