-- ===== src/Sorting/Tests.antt =====
-- sort.h: runs on numbers.
use xteam.Prelude.{ℕ, zero, suc, ◌<◌, ◌≡◌, refl, true, none, some, List, [], ◌∷◌, arith, length}
use xteam.Arrays.Order.{at, le, IsSorted, SameItems}
use xteam.Arrays.Numbers.{numbers}
use xteam.Sorting.Select.{sort_select}
use xteam.Sorting.Gap.{sort_shell, sort_insert}
use xteam.Sorting.InFront.{sort_insert_lem}
use xteam.Sorting.Merging.{sort_merge}
use xteam.Sorting.Quick.{sort_quick}
use xteam.Sorting.Distinct.{IsDistinct}
use xteam.Sorting.QuickSort.{sort_quick_lem, sort_quick_endless}
use xteam.Sorting.Heap.{sort_heap}
use xteam.Sorting.HeapSort.{sort_heap_lem}

abbrev three : List ℕ
three = 2 ∷ 3 ∷ 1 ∷ []

abbrev memory : List ℕ
memory = 9 ∷ 9 ∷ 9 ∷ []

abbrev equal_ends : List ℕ
equal_ends = 7 ∷ 1 ∷ 7 ∷ []

abbrev repeated : List ℕ
repeated = 5 ∷ 2 ∷ 2 ∷ 1 ∷ []

sort_select_run : sort_select repeated ≡ 1 ∷ 2 ∷ 2 ∷ 5 ∷ []
unfolding sort_select
sort_select_run = refl

sort_shell_run : sort_shell repeated ≡ 1 ∷ 2 ∷ 2 ∷ 5 ∷ []
unfolding sort_shell
sort_shell_run = refl

sort_heap_run : sort_heap repeated ≡ 1 ∷ 2 ∷ 2 ∷ 5 ∷ []
unfolding sort_heap
sort_heap_run = refl

sort_merge_run : sort_merge memory three ≡ 1 ∷ 2 ∷ 3 ∷ []
unfolding sort_merge
sort_merge_run = refl

sort_quick_run : sort_quick 5 three ≡ some (1 ∷ 2 ∷ 3 ∷ [])
unfolding sort_quick
sort_quick_run = refl

-- `SortInsert` moves what stands in front of the array, where that is greater than an element, and then
-- leaves the array unsorted.
sort_insert_run : sort_insert 9 three ≡ 1 ∷ 2 ∷ 9 ∷ 3 ∷ []
unfolding sort_insert
sort_insert_run = refl

zero_least : (k : ℕ) → k < length three → le 0 (at three k) ≡ true
zero_least k h = ground arith

sort_insert_lem_example :
    let mem = sort_insert 0 three in IsSorted mem × (at mem 0 ≡ 0) × SameItems mem (0 ∷ three)
sort_insert_lem_example = sort_insert_lem 0 three (omega arith) zero_least

sort_heap_lem_example : IsSorted (sort_heap repeated) × SameItems (sort_heap repeated) repeated
sort_heap_lem_example = sort_heap_lem repeated

three-IsDistinct : IsDistinct three
three-IsDistinct zero zero h k ne = absurd (ne refl)
three-IsDistinct zero (suc zero) h k ne = refl
three-IsDistinct zero (suc (suc zero)) h k ne = refl
three-IsDistinct zero (suc (suc (suc j))) h k ne = absurd (omega arith)
three-IsDistinct (suc zero) zero h k ne = refl
three-IsDistinct (suc zero) (suc zero) h k ne = absurd (ne refl)
three-IsDistinct (suc zero) (suc (suc zero)) h k ne = refl
three-IsDistinct (suc zero) (suc (suc (suc j))) h k ne = absurd (omega arith)
three-IsDistinct (suc (suc zero)) zero h k ne = refl
three-IsDistinct (suc (suc zero)) (suc zero) h k ne = refl
three-IsDistinct (suc (suc zero)) (suc (suc zero)) h k ne = absurd (ne refl)
three-IsDistinct (suc (suc zero)) (suc (suc (suc j))) h k ne = absurd (omega arith)
three-IsDistinct (suc (suc (suc i))) j h k ne = absurd (omega arith)

sort_quick_lem_example :
    (arr' : List ℕ) × (sort_quick 5 three ≡ some arr') × IsSorted arr' × SameItems arr' three
sort_quick_lem_example = sort_quick_lem 5 three three-IsDistinct (omega arith)

sort_quick_endless_example : sort_quick 100 equal_ends ≡ none
sort_quick_endless_example = sort_quick_endless 100 equal_ends (omega arith) refl
