-- ===== src/LinkedList/Tests.antt =====
-- list.h: runs on a list of three numbers.
use xteam.Prelude.{
  ℕ, ◌+◌, ◌-◌, ◌≤◌, ◌<◌, ◌≡◌, refl, Bool, true, Option, some, arith, ◌==◌, if◌then◌else◌, ◌>>=◌,
}
use xteam.Arrays.Numbers.{numbers}
use xteam.Arrays.Order.{le}
use xteam.LinkedList.Reversal.{with_val}
use xteam.LinkedList.Selected.{tally, sort-IsSelected}
use xteam.LinkedList.Types.{LinkedList, first, last, insert_as_succ, remove}
use xteam.LinkedList.Finding.{find, search, select_max}
use xteam.LinkedList.Sorts.{sort, insertion_sort}
use xteam.LinkedList.Runners.{make_loop, is_loop, remove_last_n, turn_round}
use xteam.LinkedList.Linked.{IsList, close_at}
use xteam.LinkedList.Edits.{remove-insert_as_succ}
use xteam.LinkedList.Counted.{remove_last_n_lem}
use xteam.LinkedList.Tied.{make_loop-is_loop}
use xteam.LinkedList.Found.{IsFound, IsSearched, find-search}
use xteam.LinkedList.Turning.{IsTurned, turn_round_lem}

-- The header is at 1, the nodes at 2, 3 and 4 hold 8, 7 and 6, and the trailer is at 5.
abbrev three : LinkedList ℕ
three = record {
  val = λ p. 10 - p;
  pred = λ p. p - 1;
  succ = λ p. if p == 5 then 0 else p + 1;
  fresh = 6;
  header = 1;
  trailer = 5;
  size = 3;
}

abbrev place : ℕ → ℕ
place i = i + 1

three-IsList : IsList three 3 place
three-IsList = record {
  size_is = refl;
  header_at = refl;
  trailer_at = refl;
  succ_at = λ i le. ground arith;
  pred_at = λ i le. ground arith;
  apart = λ i j li lj e. omega arith;
  old = λ i le. omega arith;
  some_node = λ i le. omega arith;
}

abbrev values : LinkedList ℕ → Option (ℕ × ℕ × ℕ)
values s = some (s.val (s.succ 1), s.val (s.succ (s.succ 1)), s.val (s.succ (s.succ (s.succ 1))))

sort_run : (sort 10 three >>= values) ≡ some (6, 7, 8)
unfolding sort
sort_run = refl

-- The first node stays where it is.
insertion_sort_run : (insertion_sort 10 three 2 >>= values) ≡ some (8, 6, 7)
unfolding insertion_sort
insertion_sort_run = refl

select_max_run : select_max three 2 3 ≡ some 8
unfolding select_max
select_max_run = refl

remove-insert_as_succ_example :
    (s' : LinkedList ℕ) × (remove (insert_as_succ three (place 1) 9) 6 ≡ some (9, s'))
    × IsList s' 3 place
    × ((i : ℕ) → i ≤ 4 → s'.val (place i) ≡ three.val (place i))
remove-insert_as_succ_example = remove-insert_as_succ three 3 place 1 9 three-IsList (omega arith)

remove_last_n_lem_example :
    (s' : LinkedList ℕ) × (remove_last_n 5 three 1 ≡ some (true, s'))
    × IsList s' 2 (close_at (4 - 1) place)
    × (s'.val ≡ three.val)
remove_last_n_lem_example =
    remove_last_n_lem three 2 place three-IsList 5 1 (omega arith) (omega arith) (omega arith)

make_loop-is_loop_example :
    (s' : LinkedList ℕ) × (make_loop three 2 ≡ some s') × (is_loop 4 s' ≡ some true)
make_loop-is_loop_example =
    make_loop-is_loop three 3 place three-IsList 2 4 (omega arith) (omega arith) (omega arith)

find-search_example :
    ((p : ℕ) × (find three 7 3 (place 3) ≡ some p) × IsFound three 3 place three-IsList 7 3 3 p)
    × ((p : ℕ) × (search three 7 3 (place 3) ≡ some p)
        × IsSearched three 3 place three-IsList 7 3 3 p)
find-search_example =
    find-search three 3 place three-IsList 7 3 3 (omega arith) (omega arith) (omega arith)

turn_round_lem_example :
    (s' : LinkedList ℕ) × (turn_round 3 three ≡ some s')
    × IsTurned three 3 place s'
    × (last s' ≡ first s')
turn_round_lem_example = turn_round_lem 3 three 3 place three-IsList (omega arith) (omega arith)

sort-IsSelected_example :
    (v : ℕ → ℕ) × (sort 5 three ≡ some (with_val three v))
    × IsList (with_val three v) 3 place
    × ((i j : ℕ) → 0 < i → i ≤ j → j ≤ 3 → le (v (place i)) (v (place j)) ≡ true)
    × ((P : ℕ → Bool) → tally P place v 3 ≡ tally P place three.val 3)
sort-IsSelected_example = sort-IsSelected 5 three 3 place three-IsList (omega arith) (omega arith)
