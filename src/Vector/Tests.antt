-- ===== src/Vector/Tests.antt =====
-- vector.h: runs on vectors of numbers.
use xteam.Prelude.{ℕ, zero, suc, ◌≤◌, ◌<◌, ◌≡◌, refl, ◌⊎◌, List, [], ◌∷◌, arith, ◌==◌}
use xteam.Arrays.Order.{at, IsSortedOn, SameItems}
use xteam.Arrays.Numbers.{numbers}
use xteam.Vector.Types.{Vector, contents, insert, remove_at, search}
use xteam.Vector.Duplicates.{deduplicate, uniquify}
use xteam.Vector.Edits.{IsVector, insert-remove_at}
use xteam.Vector.Ranks.{IsPlace, search_lem}
use xteam.Vector.Sorts.{sort, bubble_sort, insertion_sort}
use xteam.Vector.Partition.{sort_lem}

-- As large as its capacity.
abbrev full : Vector ℕ
full = record { size = 3; capacity = 3; elem = 4 ∷ 6 ∷ 8 ∷ [] }

abbrev row : List ℕ
row = 9 ∷ 5 ∷ 2 ∷ 5 ∷ 1 ∷ []

abbrev pair : List ℕ
pair = 4 ∷ 6 ∷ []

insert_run : contents (insert 1 5 full) ≡ 4 ∷ 5 ∷ 6 ∷ 8 ∷ []
unfolding insert
insert_run = refl

sort_run : sort 1 4 row ≡ 9 ∷ 2 ∷ 5 ∷ 5 ∷ 1 ∷ []
unfolding sort
sort_run = refl

bubble_sort_run : bubble_sort 9 0 5 row ≡ 1 ∷ 2 ∷ 5 ∷ 5 ∷ 9 ∷ []
unfolding bubble_sort
bubble_sort_run = refl

insertion_sort_run : insertion_sort 0 5 row ≡ 1 ∷ 2 ∷ 5 ∷ 5 ∷ 9 ∷ []
unfolding insertion_sort
insertion_sort_run = refl

-- `uniquify` loses the greatest value: its size is the rank of the last element it keeps.
uniquify_run : contents (uniquify ◌==◌ full).1 ≡ 4 ∷ 6 ∷ []
unfolding uniquify
uniquify_run = refl

-- `deduplicate` looks below the rank before its own, and leaves neighbours that are equal.
deduplicate_run :
    contents (deduplicate ◌==◌ (record { size = 2; capacity = 2; elem = 4 ∷ 4 ∷ [] })).1
    ≡ 4 ∷ 4 ∷ []
unfolding deduplicate
deduplicate_run = refl

full-IsVector : IsVector full
full-IsVector = (refl, omega arith, omega arith)

insert-remove_at_example :
    let (e', v') = remove_at 2 (insert 2 7 full) in
    (e' ≡ 7) × (v'.size ≡ 3) × ((k : ℕ) → k < 3 → at v'.elem k ≡ at full.elem k)
insert-remove_at_example = insert-remove_at 2 7 full full-IsVector (omega arith)

two-IsSortedOn : IsSortedOn 0 2 pair
two-IsSortedOn zero zero a b c = refl
two-IsSortedOn zero (suc zero) a b c = refl
two-IsSortedOn zero (suc (suc j)) a b c = absurd (omega arith)
two-IsSortedOn (suc i) zero a b c = absurd (omega arith)
two-IsSortedOn (suc zero) (suc zero) a b c = refl
two-IsSortedOn (suc zero) (suc (suc j)) a b c = absurd (omega arith)
two-IsSortedOn (suc (suc i)) (suc j) a b c = absurd (omega arith)

search_lem_example : IsPlace 5 0 2 (search 5 0 2 pair) pair
search_lem_example = search_lem 5 0 2 pair two-IsSortedOn (omega arith)

sort_lem_example :
    let elem' = sort 1 4 row in
    IsSortedOn 1 4 elem'
    × SameItems elem' row
    × ((k : ℕ) → (k < 1) ⊎ (4 ≤ k) → at elem' k ≡ at row k)
sort_lem_example = sort_lem 1 4 row (omega arith)
