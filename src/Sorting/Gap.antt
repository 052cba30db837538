-- ===== src/Sorting/Gap.antt =====
-- sort.h: `SortInsert` and `SortShell`, which move each element down by exchanges over a gap.
use xteam.Prelude.{ℕ, zero, suc, ◌+◌, ◌-◌, ◌/◌, List, ◌∷◌, ltb, ◌==◌, if◌then◌else◌, length}
use xteam.Arrays.Order.{Order, at}
use xteam.Arrays.Swap.{swap}

module _ {T : Type 0} ⦃o : Order T⦄ where
  -- The innermost loop: `j` goes down by `gap`, at most `n` times, to its end.
  unfoldable pub sift : ℕ → ℕ → ℕ → List T → List T
  unfolding swap
  sift zero gap j arr = arr
  sift (suc n) gap j arr =
      let moved = if o.lt (at arr j) (at arr (j - gap)) then swap (j - gap) j arr else arr in
      let rest = sift n gap (j - gap) moved in if ltb j gap then arr else rest

  -- The loop over `i`, which goes up by `gap`, at most `n` rounds.
  unfoldable pub pass : ℕ → ℕ → ℕ → List T → List T
  unfolding sift
  pass zero gap i arr = arr
  pass (suc n) gap i arr =
      let rest = pass n gap (i + gap) (sift i gap i arr) in if ltb i (length arr) then rest else arr

  -- The loop over the gaps, at most `n` of them.
  unfoldable pub shell_from : ℕ → ℕ → List T → List T
  unfolding pass
  shell_from zero gap arr = arr
  shell_from (suc n) gap arr =
      let rest = shell_from n (gap / 2) (pass (length arr - gap) gap gap arr) in
      if gap == 0 then arr else rest

  -- `SortShell`
  unfoldable pub sort_shell : List T → List T
  unfolding shell_from
  sort_shell arr = shell_from (length arr) (length arr / 2) arr

  -- `SortInsert`, on the array with the cell in front of it, which it compares and may write to when
  -- `j` is 0.
  unfoldable pub sort_insert : T → List T → List T
  unfolding pass
  sort_insert before arr = pass (length arr - 1) 1 2 (before ∷ arr)
