-- ===== src/Vector/Duplicates.antt =====
-- vector.h: `find`, `deduplicate` and `uniquify`, with `==` of the element type as `eq`.
use xteam.Prelude.{
  ℕ, zero, suc, ◌+◌, ◌-◌, Bool, not, Option, none, some, List, ltb, if◌then◌else◌, set,
}
use xteam.Arrays.Order.{Order, at}
use xteam.Vector.Types.{Vector, remove_at}

module _ {T : Type 0} ⦃o : Order T⦄ (eq : T → T → Bool) where
  -- The loop of `find`, `n` rounds from `i` on; `none` is -1.
  unfoldable pub find_from : ℕ → T → ℕ → List T → Option ℕ
  find_from zero e i elem = none
  find_from (suc n) e i elem =
      let rest = find_from n e (i + 1) elem in if eq (at elem i) e then some i else rest

  -- `find(e, lo, hi)`
  unfoldable pub find : T → ℕ → ℕ → List T → Option ℕ
  unfolding find_from
  find e lo hi elem = find_from (hi - lo) e lo elem

  -- `deduplicate`: the loop, at most `n` rounds.
  unfoldable pub deduplicate_from : ℕ → ℕ → Vector T → Vector T
  unfolding find remove_at
  deduplicate_from zero idx v = v
  deduplicate_from (suc n) idx v =
      let stay = deduplicate_from n (idx + 1) v in
      let gone = λ (pos : ℕ). deduplicate_from n idx (remove_at pos v).1 in
      if ltb idx v.size
      then elim (find (at v.elem idx) 0 (idx - 1) v.elem) [ none ↦ stay | some pos ↦ gone pos ]
      else v

  unfoldable pub deduplicate : Vector T → ℕ × Vector T
  unfolding deduplicate_from
  deduplicate v = let v' = deduplicate_from v.size 1 v in (v.size - v'.size, v')

  -- `uniquify`: the loop, `n` rounds from `j` on.
  unfoldable pub uniquify_from : ℕ → ℕ → ℕ → List T → ℕ × List T
  uniquify_from zero i j elem = (i, elem)
  uniquify_from (suc n) i j elem =
      let differ = not (eq (at elem i) (at elem j)) in
      uniquify_from n (if differ then i + 1 else i) (j + 1)
        (if differ then set elem (i + 1) (at elem j) else elem)

  unfoldable pub uniquify : Vector T → ℕ × Vector T
  unfolding uniquify_from
  uniquify v =
      let (i, elem') = uniquify_from (v.size - 1) 0 1 v.elem in
      (i, record v { size = i; elem = elem' })
