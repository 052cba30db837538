-- ===== src/Reactor/Due.antt =====
-- ae.c: `processTimeEvents`.
-- Callbacks only put events in front of the list, and an event is unlinked only by the walk itself,
-- so the event that `te` points to is named by how many stand behind it.
use xteam.Prelude.{
  ℕ, zero, suc, ◌+◌, Bool, ◌&&◌, ◌||◌, Option, none, some, List, [], ◌∷◌, map, ltb, leb, ◌==◌,
  if◌then◌else◌, length,
}
use xteam.Reactor.Types.{TimeEvent, EventLoop, Kernel}
use xteam.Reactor.Timers.{get_time, add_milliseconds_to_now}
use xteam.Reactor.Callbacks.{Callbacks, perform_all}

module _ {ℓ} {A : Type ℓ} where
  -- The element that has `k` behind it.
  unfoldable pub at_position : ℕ → List A → Option A
  at_position k [] = none
  at_position k (x ∷ xs) = let later = at_position k xs in if length xs == k then some x else later

  unfoldable pub change_position : ℕ → (A → A) → List A → List A
  change_position k f [] = []
  change_position k f (x ∷ xs) =
      let later = change_position k f xs in if length xs == k then f x ∷ xs else x ∷ later

  unfoldable pub remove_position : ℕ → List A → List A
  remove_position k [] = []
  remove_position k (x ∷ xs) =
      let later = remove_position k xs in if length xs == k then xs else x ∷ later

-- Whether an event's time has come.
abbrev pub is_due : ℕ → ℕ → TimeEvent → Bool
is_due now_sec now_ms te =
    ltb te.when_sec now_sec || (now_sec == te.when_sec && leb te.when_ms now_ms)

module _ {W : Type 0} ⦃k : Kernel W⦄ ⦃c : Callbacks W⦄ where
  -- An event that is marked deleted is unlinked, then its finalizer is called.
  unfoldable pub reap : ℕ → TimeEvent → EventLoop → W → EventLoop × W
  unfolding remove_position perform_all
  reap pos te l w =
      let l' = record l { timers = remove_position pos l.timers } in
      elim te.finalizer_proc [
        | none ↦ (l', w)
        | some f ↦ let (acts, w') = c.finalizer_proc f l' te.client_data w in perform_all acts l' w'
      ]

  -- A due event is called; then it is put off by the time that it returns, or marked deleted.
  unfoldable pub fire : ℕ → TimeEvent → ℕ → EventLoop → W → EventLoop × W
  unfolding change_position perform_all add_milliseconds_to_now
  fire pos te id l w =
      let (retval, acts, w1) = c.time_proc te.time_proc l id te.client_data w in
      let (l', w2) = perform_all acts l w1 in
      elim retval [
        | none ↦
            (record l' { timers = change_position pos (λ t. record t { id = none }) l'.timers }, w2)
        | some ms ↦
            let (sec, ms', w3) = add_milliseconds_to_now ms w2 in
            (
              record l' {
                timers =
                    change_position pos (λ t. record t { when_sec = sec; when_ms = ms' }) l'.timers;
              },
              w3,
            )
      ]

  -- One round of the walk, at the event with `pos` behind it; `new_id` is the id that stood first in
  -- line before the walk. The number is that of the events processed.
  unfoldable pub process_one : ℕ → ℕ → EventLoop → W → ℕ × EventLoop × W
  unfolding at_position reap fire get_time
  process_one new_id pos l w = elim (at_position pos l.timers) [
    | none ↦ (0, l, w)
    | some te ↦ elim te.id [
      | none ↦ let (l', w') = reap pos te l w in (0, l', w')
      | some id ↦
          let (now_sec, now_ms, w1) = get_time w in
          let (l', w') = fire pos te id l w1 in
          if leb new_id id
          then (0, l, w)
          else if is_due now_sec now_ms te
          then (1, l', w')
          else (0, l, w1)
    ]
  ]

  -- The rounds for the last `n` events of the list.
  unfoldable pub process_from : ℕ → ℕ → ℕ → EventLoop → W → ℕ × EventLoop × W
  unfolding process_one
  process_from new_id zero processed l w = (processed, l, w)
  process_from new_id (suc n) processed l w =
      let (done, l', w') = process_one new_id n l w in
      process_from new_id n (processed + done) l' w'

  -- After the clock was set back every event counts as due.
  unfoldable pub process_time_events : EventLoop → W → ℕ × EventLoop × W
  unfolding process_from
  process_time_events l w =
      let (now, w') = k.time w in
      let timers' =
        if ltb now l.last_time
        then map (λ (te : TimeEvent). record te { when_sec = 0 }) l.timers
        else l.timers in
      process_from l.next_id (length timers') 0 (record l { last_time = now; timers = timers' }) w'
