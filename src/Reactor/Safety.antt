-- ===== src/Reactor/Safety.antt =====
-- ae.c: the invariants of the event loop, over any number of turns and for any callbacks.
use xteam.Prelude.{ℕ, ◌≡◌, refl, ◌∙◌, true, false, Option, some, arith, length}
use xteam.Reactor.Types.{Mask, EventLoop, Kernel}
use xteam.Reactor.Files.{create_file_event, delete_file_event}
use xteam.Reactor.Timers.{create_time_event}
use xteam.Reactor.Callbacks.{
  Action, create_file, delete_file, create_time, delete_time, stop, Callbacks, perform,
}
use xteam.Reactor.Process.{turn, main}
use xteam.Reactor.MaxFd.{IsBounded, create_file_event-IsBounded, delete_file_event-IsBounded}
use xteam.Reactor.TimerIds.{IsIssued, create_time_event-IsIssued, delete_time_event_lem}
use xteam.Reactor.Kept.{IsKept, turn_keeps, run_keeps}

-- Slots, ids and the room for fired events.
pub record IsSound (l : EventLoop) : Type 0 where
  pub bounded : IsBounded l
  pub issued : IsIssued l
  pub room : length l.fired ≡ l.setsize

IsIssued-same :
    (l l' : EventLoop) → l'.timers ≡ l.timers → l'.next_id ≡ l.next_id → IsIssued l → IsIssued l'
IsIssued-same l l' e f h = record {
  unique = λ i. rw e (h.unique i);
  unissued = λ i lt. rw e (h.unissued i (omega arith));
}

module _ {W : Type 0} ⦃k : Kernel W⦄ where
  create_file_event_rest :
      (fd : ℕ) (mask : Mask) (proc data' : ℕ) (l : EventLoop) (w : W)
      → let l' = (create_file_event fd mask proc data' l w).1 in
        (l'.timers ≡ l.timers)
        × (l'.next_id ≡ l.next_id)
        × (l'.fired ≡ l.fired)
        × (l'.setsize ≡ l.setsize)
  unfolding create_file_event
  create_file_event_rest fd mask proc data' l w = ground arith

  delete_file_event_rest :
      (fd : ℕ) (mask : Mask) (l : EventLoop) (w : W)
      → let l' = (delete_file_event fd mask l w).0 in
        (l'.timers ≡ l.timers)
        × (l'.next_id ≡ l.next_id)
        × (l'.fired ≡ l.fired)
        × (l'.setsize ≡ l.setsize)
  unfolding delete_file_event
  delete_file_event_rest fd mask l w = ground arith

  create_time_event-IsBounded :
      (ms proc data' : ℕ) (finalizer : Option ℕ) (l : EventLoop) (w : W)
      → IsSound l
      → IsBounded (create_time_event ms proc data' finalizer l w).1
  unfolding create_time_event
  create_time_event-IsBounded ms proc data' finalizer l w h = record {
    sized = h.bounded.sized;
    within = h.bounded.within;
    unused = h.bounded.unused;
  }

  -- Each public function keeps the invariants.
  perform-IsSound : (a : Action) (l : EventLoop) (w : W) → IsSound l → IsSound (perform a l w).0
  unfolding perform
  perform-IsSound (create_file fd mask proc data') l w h =
      let (ts, next, fs, size) = create_file_event_rest fd mask proc data' l w in
      record {
        bounded = create_file_event-IsBounded fd mask proc data' l w h.bounded;
        issued = IsIssued-same l _ ts next h.issued;
        room = rw (fs, size) h.room;
      }
  perform-IsSound (delete_file fd mask) l w h =
      let (ts, next, fs, size) = delete_file_event_rest fd mask l w in
      record {
        bounded = delete_file_event-IsBounded fd mask l w h.bounded;
        issued = IsIssued-same l _ ts next h.issued;
        room = rw (fs, size) h.room;
      }
  perform-IsSound (create_time ms proc data' finalizer) l w h = record {
    bounded = create_time_event-IsBounded ms proc data' finalizer l w h;
    issued = (create_time_event-IsIssued ms proc data' finalizer l w h.issued).0;
    room = h.room;
  }
  perform-IsSound (delete_time id) l w h = record {
    bounded = record {
      sized = h.bounded.sized;
      within = h.bounded.within;
      unused = h.bounded.unused;
    };
    issued = (delete_time_event_lem id l h.issued).3;
    room = h.room;
  }
  perform-IsSound stop l w h = record {
    bounded = record {
      sized = h.bounded.sized;
      within = h.bounded.within;
      unused = h.bounded.unused;
    };
    issued = IsIssued-same l _ refl refl h.issued;
    room = h.room;
  }

  IsSound-IsKept : IsKept W IsSound
  IsSound-IsKept = record {
    performed = perform-IsSound;
    timers_kept = λ l ts t le h. record {
      bounded = record {
        sized = h.bounded.sized;
        within = h.bounded.within;
        unused = h.bounded.unused;
      };
      issued = record {
        unique = λ i. omega (arith, le i, h.issued.unique i);
        unissued = λ i lt. omega (arith, le i, h.issued.unissued i lt);
      };
      room = h.room;
    };
    fired_kept = λ l fs e h. record {
      bounded = record {
        sized = h.bounded.sized;
        within = h.bounded.within;
        unused = h.bounded.unused;
      };
      issued = IsIssued-same l _ refl refl h.issued;
      room = e ∙ h.room;
    };
  }

  -- One turn of the loop keeps the invariants, whatever the callbacks ask for and the kernel answers:
  -- the slots from `maxfd + 1` on are free, the ids of timers are distinct and already given out, and
  -- `fired` has room for as many events as epoll may report.
  pub turn-IsSound : ⦃c : Callbacks W⦄ (l : EventLoop) (w : W) → IsSound l → IsSound (turn l w).0
  turn-IsSound l w h = turn_keeps IsSound-IsKept l w h

  -- Where the invariants hold at first and the main loop ends, after any number of turns and for any
  -- callbacks, its stop flag is set, and they hold.
  pub main-IsSound :
      ⦃c : Callbacks W⦄ (n : ℕ) (l : EventLoop) (w : W) (l' : EventLoop) (w' : W)
      → IsSound l
      → main n l w ≡ some (l', w')
      → IsSound l' × (l'.stop ≡ true)
  unfolding main
  main-IsSound n l w l' w' h e =
      let start : IsSound (record l { stop = false }) = record {
        bounded = record {
          sized = h.bounded.sized;
          within = h.bounded.within;
          unused = h.bounded.unused;
        };
        issued = IsIssued-same l _ refl refl h.issued;
        room = h.room;
      } in
      run_keeps IsSound-IsKept n (record l { stop = false }) w l' w' start e
