-- ===== src/Reactor/Timers.antt =====
-- ae.c: time events.
use xteam.Prelude.{
  ℕ, ◌+◌, ◌-◌, ◌/◌, ◌%◌, Bool, false, ◌&&◌, ◌||◌, Option, none, some, List, [], ◌∷◌, ltb, leb, ◌==◌,
  if◌then◌else◌,
}
use xteam.Reactor.Types.{Status, ok, err, TimeEvent, EventLoop, Kernel}

-- `a` is an id that is not deleted and equals `i`.
abbrev pub has_id : Option ℕ → ℕ → Bool
has_id none i = false
has_id (some j) i = j == i

-- Whether an event is due before another.
abbrev pub earlier : TimeEvent → TimeEvent → Bool
earlier a b = ltb a.when_sec b.when_sec || (a.when_sec == b.when_sec && ltb a.when_ms b.when_ms)

module _ {W : Type 0} ⦃k : Kernel W⦄ where
  -- `aeGetTime`: seconds and milliseconds.
  unfoldable pub get_time : W → ℕ × ℕ × W
  get_time w = let (sec, usec, w') = k.gettimeofday w in (sec, usec / 1000, w')

  -- `aeAddMillisecondsToNow`
  unfoldable pub add_milliseconds_to_now : ℕ → W → ℕ × ℕ × W
  unfolding get_time
  add_milliseconds_to_now milliseconds w =
      let (cur_sec, cur_ms, w') = get_time w in
      let when_sec = cur_sec + milliseconds / 1000 in
      let when_ms = cur_ms + milliseconds % 1000 in
      if leb 1000 when_ms then (when_sec + 1, when_ms - 1000, w') else (when_sec, when_ms, w')

  -- `aeCreateTimeEvent`
  unfoldable pub create_time_event : ℕ → ℕ → ℕ → Option ℕ → EventLoop → W → ℕ × EventLoop × W
  unfolding add_milliseconds_to_now
  create_time_event milliseconds proc data' finalizer l w =
      let (sec, ms, w') = add_milliseconds_to_now milliseconds w in
      let te : TimeEvent = record {
        id = some l.next_id;
        when_sec = sec;
        when_ms = ms;
        time_proc = proc;
        finalizer_proc = finalizer;
        client_data = data';
      } in
      (l.next_id, record l { next_id = l.next_id + 1; timers = te ∷ l.timers }, w')

-- The walk of `aeDeleteTimeEvent`: the first event of that id is marked.
unfoldable pub mark_deleted : ℕ → List TimeEvent → Status × List TimeEvent
mark_deleted i [] = (err, [])
mark_deleted i (te ∷ ts) =
    let (st, ts') = mark_deleted i ts in
    if has_id te.id i then (ok, record te { id = none } ∷ ts) else (st, te ∷ ts')

-- `aeDeleteTimeEvent`
unfoldable pub delete_time_event : ℕ → EventLoop → Status × EventLoop
unfolding mark_deleted
delete_time_event i l = let (st, ts) = mark_deleted i l.timers in (st, record l { timers = ts })

-- The walk of `aeSearchNearestTimer`, with the nearest so far.
unfoldable pub nearest_from : Option TimeEvent → List TimeEvent → Option TimeEvent
nearest_from best [] = best
nearest_from none (te ∷ ts) = nearest_from (some te) ts
nearest_from (some b) (te ∷ ts) = nearest_from (some (if earlier te b then te else b)) ts

unfoldable pub search_nearest_timer : EventLoop → Option TimeEvent
unfolding nearest_from
search_nearest_timer l = nearest_from none l.timers
