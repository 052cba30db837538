-- ===== src/Vector/Types.antt =====
-- vector.h: the vector, its storage, and the methods that read and change it. `T` has `==` besides the
-- comparisons of an `Order`.
use xteam.Prelude.{
  ℕ, zero, suc, ◌+◌, ◌-◌, ◌*◌, ◌/◌, List, [], ◌∷◌, ltb, ◌==◌, if◌then◌else◌, set, take,
}
use xteam.Arrays.Order.{Order, at}
use xteam.Arrays.Swap.{swap}

-- `_size`, `_capacity`, and the array `_elem` points to.
pub record Vector (T : Type 0) : Type 0 where
  pub size : ℕ
  pub capacity : ℕ
  pub elem : List T

-- The elements, of which the array may hold more than the size says.
abbrev pub contents : {T : Type 0} → Vector T → List T
contents v = take v.size v.elem

module _ {T : Type 0} ⦃o : Order T⦄ where
  -- `new T[n]`, with `count` elements of `src` from `lo` on copied to its front.
  unfoldable pub new_array : ℕ → ℕ → ℕ → List T → List T
  new_array zero count lo src = []
  new_array (suc n) zero lo src = o.blank ∷ new_array n zero lo src
  new_array (suc n) (suc count) lo src = at src lo ∷ new_array n count (lo + 1) src

  -- `expand`
  unfoldable pub expand : Vector T → Vector T
  unfolding new_array
  expand v =
      if v.size == v.capacity
      then record v { capacity = v.capacity * 2; elem = new_array (v.capacity * 2) v.size 0 v.elem }
      else v

  -- `shrink`
  unfoldable pub shrink : Vector T → Vector T
  unfolding new_array
  shrink v =
      if ltb (v.size * 2) v.capacity
      then record v { capacity = v.capacity / 2; elem = new_array (v.capacity / 2) v.size 0 v.elem }
      else v

  -- `copyFrom`, the part of `src` from `lo` to `hi`, without `hi`.
  unfoldable pub copy_from : List T → ℕ → ℕ → Vector T
  unfolding new_array
  copy_from src lo hi =
      let count = hi - lo in
      record { size = count; capacity = count * 2; elem = new_array (count * 2) count lo src }

  -- `memmove` of `n` elements from `r` on, by one place up; the highest moves first.
  unfoldable pub move_up_one : ℕ → ℕ → List T → List T
  move_up_one zero r elem = elem
  move_up_one (suc n) r elem = move_up_one n r (set elem (r + suc n) (at elem (r + n)))

  -- `insert(r, e)`
  unfoldable pub insert : ℕ → T → Vector T → Vector T
  unfolding expand move_up_one
  insert r e v =
      let v' = expand v in
      record v' { size = v'.size + 1; elem = set (move_up_one (v'.size - r) r v'.elem) r e }

  -- `insert(e)`
  unfoldable pub insert_last : T → Vector T → Vector T
  unfolding insert
  insert_last e v = insert v.size e v

  -- The loop of `remove`, `n` rounds.
  unfoldable pub move_back : ℕ → ℕ → ℕ → List T → List T
  move_back zero lo hi elem = elem
  move_back (suc n) lo hi elem = move_back n (lo + 1) (hi + 1) (set elem lo (at elem hi))

  -- `remove(lo, hi)`, where `lo` is at most `hi`, and the number it returns.
  unfoldable pub remove : ℕ → ℕ → Vector T → ℕ × Vector T
  unfolding move_back
  remove lo hi v = if lo == hi then (0, v) else (
    hi - lo,
    record v { size = v.size - (hi - lo); elem = move_back (v.size - hi) lo hi v.elem },
  )

  -- `remove(r)`
  unfoldable pub remove_at : ℕ → Vector T → T × Vector T
  unfolding remove
  remove_at r v = (at v.elem r, (remove r (r + 1) v).1)

  -- `clear`
  unfoldable pub clear : Vector T → Vector T
  unfolding remove
  clear v = (remove 0 v.size v).1

  -- `disordered`: the loop, `n` rounds from `idx` on.
  unfoldable pub disordered_from : ℕ → ℕ → List T → ℕ
  disordered_from zero idx elem = 0
  disordered_from (suc n) idx elem =
      (if o.lt (at elem idx) (at elem (idx - 1)) then 1 else 0) + disordered_from n (idx + 1) elem

  unfoldable pub disordered : Vector T → ℕ
  unfolding disordered_from
  disordered v = disordered_from (v.size - 1) 1 v.elem

  -- The loop of the binary `search`, at most `n` rounds. The result is 1 more than the rank, which may
  -- be -1.
  unfoldable pub search_from : ℕ → T → ℕ → ℕ → List T → ℕ
  search_from zero e lo hi elem = lo
  search_from (suc n) e lo hi elem =
      let mi = (lo + hi) / 2 in
      let right = search_from n e (mi + 1) hi elem in
      let left = search_from n e lo mi elem in
      if ltb lo hi then if o.lt e (at elem mi) then left else right else lo

  -- `search(e, lo, hi)`
  unfoldable pub search : T → ℕ → ℕ → List T → ℕ
  unfolding search_from
  search e lo hi elem = search_from (hi - lo + 1) e lo hi elem

  -- `reverse`: the loop from both ends.
  unfoldable pub reverse_from : ℕ → ℕ → ℕ → List T → List T
  unfolding swap
  reverse_from zero s e elem = elem
  reverse_from (suc n) s e elem =
      let rest = reverse_from n (s + 1) (e - 1) (swap s e elem) in if ltb s e then rest else elem

  unfoldable pub reverse : Vector T → Vector T
  unfolding reverse_from
  reverse v = record v { elem = reverse_from v.size 0 (v.size - 1) v.elem }
