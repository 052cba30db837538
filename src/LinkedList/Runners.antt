-- ===== src/LinkedList/Runners.antt =====
-- list.h: `MiddleNode`, `MakeLoop`, `IsLoop`, `LastN`, `RemoveLastN`, `Rotate` and `Reverse`. A loop
-- that runs to the end of the list runs on fuel; `none` is fuel that is used up, a failed assertion, a
-- division by 0, or a write through `NULL`.
use xteam.Prelude.{
  ℕ, zero, suc, ◌-◌, ◌%◌, Bool, true, false, ◌||◌, Option, none, some, leb, ◌==◌, if◌then◌else◌,
  ◌>>=◌,
}
use xteam.LinkedList.Types.{LinkedList, write, first, last, unlink, walk}

module _ {T : Type 0} where
  -- Two steps, or one where the second would leave the list.
  abbrev pub step_fast : LinkedList T → ℕ → ℕ
  step_fast s fast = if s.succ fast == s.trailer then s.succ fast else s.succ (s.succ fast)

  unfoldable pub middle_from : ℕ → LinkedList T → ℕ → ℕ → Option ℕ
  middle_from zero s slow fast = none
  middle_from (suc fuel) s slow fast =
      let rest = middle_from fuel s (s.succ slow) (step_fast s fast) in
      if fast == s.trailer then some slow else rest

  -- `List::MiddleNode`
  unfoldable pub middle_node : ℕ → LinkedList T → Option ℕ
  unfolding middle_from
  middle_node fuel s =
      if s.succ (first s) == s.trailer
      then some (first s)
      else middle_from fuel s (first s) (s.succ (s.succ (first s)))

  -- `List::MakeLoop`
  unfoldable pub make_loop : LinkedList T → ℕ → Option (LinkedList T)
  unfolding walk
  make_loop s from =
      if leb from s.size
      then some (record s { succ = write s.succ (last s) (walk s (from - 1) (first s)) })
      else none

  unfoldable pub loop_from : ℕ → LinkedList T → ℕ → ℕ → Option Bool
  loop_from zero s slow fast = none
  loop_from (suc fuel) s slow fast =
      let rest = loop_from fuel s (s.succ slow) (step_fast s fast) in
      if fast == s.trailer then some false else if slow == fast then some true else rest

  -- `List::IsLoop`
  unfoldable pub is_loop : ℕ → LinkedList T → Option Bool
  unfolding loop_from
  is_loop fuel s =
      let slow = first s in
      let fast = if s.succ slow == s.trailer then s.trailer else s.succ (s.succ slow) in
      if slow == s.trailer
      then some false
      else if s.succ slow == slow
      then some true
      else loop_from fuel s slow fast

  -- The first loop of `LastN`,
  unfoldable pub advance : LinkedList T → ℕ → ℕ → ℕ
  advance s zero fast = fast
  advance s (suc n) fast =
      let rest = advance s n (s.succ fast) in if fast == s.trailer then fast else rest

  -- and its second.
  unfoldable pub follow : ℕ → LinkedList T → ℕ → ℕ → Option ℕ
  follow zero s slow fast = none
  follow (suc fuel) s slow fast =
      let rest = follow fuel s (s.succ slow) (s.succ fast) in
      if fast == s.trailer then some slow else rest

  -- `List::LastN`
  unfoldable pub last_n : ℕ → LinkedList T → ℕ → Option ℕ
  unfolding advance follow
  last_n fuel s n = follow fuel s s.header (advance s n s.header)

  -- What `RemoveLastN` does with the node that its loops find,
  unfoldable pub remove_slow : LinkedList T → ℕ → Option (Bool × LinkedList T)
  unfolding unlink
  remove_slow s slow =
      if slow == s.header
      then some (false, s)
      else if s.succ slow == 0
      then none
      else some (true, unlink s slow)

  -- `List::RemoveLastN`
  unfoldable pub remove_last_n : ℕ → LinkedList T → ℕ → Option (Bool × LinkedList T)
  unfolding advance follow remove_slow
  remove_last_n fuel s n =
      follow fuel s s.header (advance s n s.header) >>= λ slow. remove_slow s slow

  -- The first loop of `Rotate`, with `move` counted down already,
  unfoldable pub advance_inside : LinkedList T → ℕ → ℕ → ℕ
  advance_inside s zero fast = fast
  advance_inside s (suc move) fast =
      let rest = advance_inside s move (s.succ fast) in
      if s.succ fast == s.trailer then fast else rest

  -- and the second.
  unfoldable pub to_last : ℕ → LinkedList T → ℕ → Option ℕ
  to_last zero s p = none
  to_last (suc fuel) s p =
      let rest = to_last fuel s (s.succ p) in
      if p == s.trailer || s.succ p == s.trailer then some p else rest

  -- `List::Rotate`
  unfoldable pub rotate : ℕ → LinkedList T → ℕ → Option (Bool × LinkedList T)
  unfolding advance_inside to_last
  rotate fuel s n =
      let slow = first s in
      let fast = advance_inside s (n % s.size - 1) slow in
      let front = s.succ fast in
      let turned = λ (end : ℕ). record s {
        succ = write (write (write s.succ s.header front) end slow) fast s.trailer;
        pred = write (write (write s.pred front s.header) slow end) s.trailer fast;
      } in
      if s.size == 0
      then none
      else if n % s.size == 0 || front == s.trailer
      then some (false, s)
      else to_last fuel s front >>= λ end. some (true, turned end)

  -- The loop of `Reverse`, and the write behind it.
  unfoldable pub turn_from : ℕ → LinkedList T → ℕ → ℕ → Option (LinkedList T)
  turn_from zero s front mid = none
  turn_from (suc fuel) s front mid =
      let rear = s.succ mid in
      let s' = record s { succ = write s.succ mid front; pred = write s.pred mid rear } in
      let rest = turn_from fuel s' mid rear in
      if mid == s.trailer then some (record s { succ = write s.succ s.header front }) else rest

  -- `List::Reverse`
  unfoldable pub turn_round : ℕ → LinkedList T → Option (LinkedList T)
  unfolding turn_from
  turn_round fuel s =
      turn_from fuel (record s { succ = write s.succ (first s) s.trailer }) (first s)
        (s.succ (first s))
