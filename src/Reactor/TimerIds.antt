-- ===== src/Reactor/TimerIds.antt =====
-- ae.c: ids of time events.
use xteam.Prelude.{
  ℕ, ◌+◌, ◌≤◌, ◌<◌, ◌≡◌, refl, ◌≢◌, ◌↔◌, ◌&&◌, Option, List, [], ◌∷◌, arith, ltb, ◌==◌,
  if◌then◌else◌, length, count_if,
}
use xteam.Reactor.Types.{ok, TimeEvent, EventLoop, Kernel}
use xteam.Reactor.Timers.{has_id, create_time_event, mark_deleted, delete_time_event}

-- How many events of a list have an id.
abbrev pub with_id : ℕ → List TimeEvent → ℕ
with_id i ts = count_if (λ te. has_id te.id i) ts

-- No two events have the same id, and the ids to be given out are not in use.
pub record IsIssued (l : EventLoop) : Type 0 where
  pub unique : (i : ℕ) → with_id i l.timers ≤ 1
  pub unissued : (i : ℕ) → l.next_id ≤ i → with_id i l.timers ≡ 0

-- Where ids are unique and already given out, they stay so, and a new event gets an id that no event
-- of the list has, and puts no other event out.
pub create_time_event-IsIssued :
    {W : Type 0} ⦃k : Kernel W⦄ (ms proc data' : ℕ) (finalizer : Option ℕ) (l : EventLoop) (w : W)
    → IsIssued l
    → let (id, l', w') = create_time_event ms proc data' finalizer l w in
      IsIssued l'
      × (with_id id l.timers ≡ 0)
      × (with_id id l'.timers ≡ 1)
      × ((i : ℕ) → i ≢ id → with_id i l'.timers ≡ with_id i l.timers)
unfolding create_time_event
create_time_event-IsIssued ms proc data' finalizer l w h = (
  record {
    unique = λ i. ground (arith, h.unique i, h.unissued i);
    unissued = λ i lt. ground (arith, h.unissued i);
  },
  ground (arith, h.unissued l.next_id),
  ground (arith, h.unissued l.next_id),
  λ i ne. ground arith,
)

mark_deleted_lem :
    (i j : ℕ) (ts : List TimeEvent)
    → with_id j (mark_deleted i ts).1 + (if i == j && ltb 0 (with_id i ts) then 1 else 0)
      ≡ with_id j ts
unfolding mark_deleted
mark_deleted_lem i j [] = ground arith
mark_deleted_lem i j (te ∷ ts) = ground (arith, mark_deleted_lem i j ts)

mark_deleted_status :
    (i : ℕ) (ts : List TimeEvent) → ((mark_deleted i ts).0 ≡ ok) ↔ (0 < with_id i ts)
unfolding mark_deleted
mark_deleted_status i [] = ground arith
mark_deleted_status i (te ∷ ts) = ground (arith, mark_deleted_status i ts)

-- Where ids are unique and already given out, deletion reports success exactly where an event has
-- the id; then no event has it, and every other id is on as many events as before. The number of
-- events does not change: the event is only marked.
pub delete_time_event_lem :
    (i : ℕ) (l : EventLoop)
    → IsIssued l
    → let (st, l') = delete_time_event i l in
      ((st ≡ ok) ↔ (with_id i l.timers ≡ 1))
      × (with_id i l'.timers ≡ 0)
      × ((j : ℕ) → j ≢ i → with_id j l'.timers ≡ with_id j l.timers)
      × IsIssued l'
      × (length l'.timers ≡ length l.timers)
unfolding delete_time_event
delete_time_event_lem i l h =
    let st = mark_deleted_status i l.timers in
    let gone = λ (j : ℕ). mark_deleted_lem i j l.timers in
    (
      ground (arith, h.unique i, st.0, st.1),
      ground (arith, h.unique i, gone i),
      λ j ne. ground (arith, gone j),
      record {
        unique = λ j. omega (arith, h.unique j, gone j);
        unissued = λ j lt. omega (arith, h.unissued j lt, gone j);
      },
      marked_length i l.timers,
    )
  where
    marked_length : (i : ℕ) (ts : List TimeEvent) → length (mark_deleted i ts).1 ≡ length ts
    marked_length i [] = refl
    marked_length i (te ∷ ts) = ground (arith, marked_length i ts)
