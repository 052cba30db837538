-- ===== src/Vector/Edits.antt =====
-- vector.h: `insert`, `remove` and `reverse`, read by rank.
use xteam.Prelude.{
  ℕ, zero, suc, ◌+◌, ◌-◌, ◌*◌, ◌≤◌, ◌<◌, ◌≡◌, refl, ap, ◌∙◌, inl, inr, ◌&&◌, List, arith, ltb, leb,
  ◌==◌, if◌then◌else◌, Bool-cases, length, set, length-set, get_or-set,
}
use xteam.Arrays.Order.{Order, at}
use xteam.Vector.Types.{
  Vector, new_array, expand, move_up_one, insert, move_back, remove, remove_at,
}

-- The array is as large as the capacity, which is not 0, and the size is within it.
abbrev pub IsVector : {T : Type 0} → Vector T → Type 0
IsVector v = (length v.elem ≡ v.capacity) × (v.size ≤ v.capacity) × (0 < v.capacity)

module _ {T : Type 0} ⦃o : Order T⦄ where
  length-new_array : (n count lo : ℕ) (src : List T) → length (new_array n count lo src) ≡ n
  unfolding new_array
  length-new_array zero count lo src = refl
  length-new_array (suc n) zero lo src = ap suc (length-new_array n zero lo src)
  length-new_array (suc n) (suc count) lo src = ap suc (length-new_array n count (lo + 1) src)

  at-new_array :
      (n count lo k : ℕ) (src : List T)
      → k < count
      → count ≤ n
      → at (new_array n count lo src) k ≡ at src (lo + k)
  unfolding new_array
  at-new_array zero count lo k src h1 h2 = absurd (omega arith)
  at-new_array (suc n) zero lo k src h1 h2 = absurd (omega arith)
  at-new_array (suc n) (suc count) lo zero src h1 h2 = ground arith
  at-new_array (suc n) (suc count) lo (suc k) src h1 h2 =
      let here : lo + 1 + k ≡ lo + suc k = omega arith in
      rw (at-new_array n count (lo + 1) k src (omega arith) (omega arith)) (rw here refl)

  -- There is room for one more afterwards, and the elements are as they were.
  expand_lem :
      (v : Vector T)
      → IsVector v
      → IsVector (expand v)
        × ((expand v).size ≡ v.size)
        × (v.size < (expand v).capacity)
        × ((k : ℕ) → k < v.size → at (expand v).elem k ≡ at v.elem k)
  unfolding expand
  expand_lem v (len, fits, some_room) = elim (Bool-cases (v.size == v.capacity)) [
    | inl e ↦ rw e (
      (length-new_array (v.capacity * 2) v.size 0 v.elem, ground arith, omega arith),
      refl,
      ground arith,
      λ k h.
          at-new_array (v.capacity * 2) v.size 0 k v.elem h (ground arith)
          ∙ (let here : 0 + k ≡ k = omega arith in rw here refl),
    )
    | inr e ↦ rw e ((len, fits, some_room), refl, ground arith, λ k h. refl)
  ]

  length-move_up_one : (n r : ℕ) (elem : List T) → length (move_up_one n r elem) ≡ length elem
  unfolding move_up_one
  length-move_up_one zero r elem = refl
  length-move_up_one (suc n) r elem =
      length-move_up_one n r (set elem (r + suc n) (at elem (r + n)))
      ∙ length-set elem (r + suc n) (at elem (r + n))

  at-move_up_one :
      (n r k : ℕ) (elem : List T)
      → r + n < length elem
      → at (move_up_one n r elem) k
        ≡ (if ltb r k && leb k (r + n) then at elem (k - 1) else at elem k)
  unfolding move_up_one
  at-move_up_one zero r k elem h = ground arith
  at-move_up_one (suc n) r k elem h =
      let elem' = set elem (r + suc n) (at elem (r + n)) in
      let read = λ (i : ℕ). get_or-set elem (r + suc n) i (at elem (r + n)) o.blank in
      ground (
        arith,
        at-move_up_one n r k elem' (omega (arith, length-set elem (r + suc n) (at elem (r + n)))),
        read k,
        read (k - 1),
      )

  -- In a vector whose array is as large as its capacity, which is not 0, and whose size is within it,
  -- `insert` at a rank up to the size makes room where there is none, puts the element there, and moves
  -- what stood from there on up by one.
  pub insert_lem :
      (r : ℕ) (e : T) (v : Vector T)
      → IsVector v
      → r ≤ v.size
      → let v' = insert r e v in
        IsVector v'
        × (v'.size ≡ v.size + 1)
        × ((k : ℕ)
            → k < v'.size
            → at v'.elem k
              ≡ (if ltb k r then at v.elem k else if k == r then e else at v.elem (k - 1)))
  unfolding insert
  insert_lem r e v inv h =
      let w = expand v in
      let ((len, fits, some_room), size, room, same) = expand_lem v inv in
      let moved = move_up_one (w.size - r) r w.elem in
      let len' = length-move_up_one (w.size - r) r w.elem in
      (
        (length-set moved r e ∙ len' ∙ len, omega arith, some_room),
        omega arith,
        λ k lt. ground (
          arith,
          get_or-set moved r k e o.blank,
          at-move_up_one (w.size - r) r k w.elem (omega arith),
          same k,
          same (k - 1),
        ),
      )

  length-move_back : (n lo hi : ℕ) (elem : List T) → length (move_back n lo hi elem) ≡ length elem
  unfolding move_back
  length-move_back zero lo hi elem = refl
  length-move_back (suc n) lo hi elem =
      length-move_back n (lo + 1) (hi + 1) (set elem lo (at elem hi))
      ∙ length-set elem lo (at elem hi)

  at-move_back :
      (n lo hi k : ℕ) (elem : List T)
      → lo < hi
      → hi + n ≤ length elem
      → at (move_back n lo hi elem) k
        ≡ (if leb lo k && ltb k (lo + n) then at elem (k + (hi - lo)) else at elem k)
  unfolding move_back
  at-move_back zero lo hi k elem h1 h2 = ground arith
  at-move_back (suc n) lo hi k elem h1 h2 =
      let elem' = set elem lo (at elem hi) in
      let read = λ (i : ℕ). get_or-set elem lo i (at elem hi) o.blank in
      ground (
        arith,
        at-move_back n (lo + 1) (hi + 1) k elem' (omega arith)
            (omega (arith, length-set elem lo (at elem hi))),
        read k,
        read (k + (hi - lo)),
      )

  -- In such a vector `remove` takes the elements of the ranks from `lo` on, below `hi`, out, returns how many, and moves
  -- what stood behind them down.
  pub remove_lem :
      (lo hi : ℕ) (v : Vector T)
      → IsVector v
      → lo ≤ hi
      → hi ≤ v.size
      → let (n, v') = remove lo hi v in
        (n ≡ hi - lo)
        × IsVector v'
        × (v'.size + n ≡ v.size)
        × ((k : ℕ)
            → k < v'.size
            → at v'.elem k ≡ (if ltb k lo then at v.elem k else at v.elem (k + (hi - lo))))
  unfolding remove
  remove_lem lo hi v (len, fits, some_room) h1 h2 = elim (Bool-cases (lo == hi)) [
    | inl e ↦ rw e (ground arith, (len, fits, some_room), omega arith, λ k lt. ground arith)
    | inr e ↦ rw e (
      refl,
      (length-move_back (v.size - hi) lo hi v.elem ∙ len, omega arith, some_room),
      omega arith,
      λ k lt.
          ground (arith, at-move_back (v.size - hi) lo hi k v.elem (ground arith) (omega arith)),
    )
  ]

  -- In a vector whose array is as large as its capacity, which is not 0, and whose size is within it,
  -- what `insert` put at a rank up to the size, `remove` of that rank returns, and leaves the elements
  -- there were, in their order.
  pub insert-remove_at :
      (r : ℕ) (e : T) (v : Vector T)
      → IsVector v
      → r ≤ v.size
      → let (e', v') = remove_at r (insert r e v) in
        (e' ≡ e) × (v'.size ≡ v.size) × ((k : ℕ) → k < v.size → at v'.elem k ≡ at v.elem k)
  unfolding remove_at
  insert-remove_at r e v inv h =
      let (inv', size, read) = insert_lem r e v inv h in
      let (n, inv'', size', read') =
        remove_lem r (r + 1) (insert r e v) inv' (omega arith) (omega arith) in
      (
        ground (arith, read r),
        omega arith,
        λ k lt. ground (arith, read' k, read k, read (k + (r + 1 - r))),
      )
