-- ===== src/Reactor/Sample.antt =====
-- ae.c: a kernel that keeps an interest list and a log of calls, callbacks, and a loop over them.
use xteam.Prelude.{
  ℕ, zero, suc, ◌≤◌, ◌≡◌, refl, Bool, true, false, Option, none, some, List, [], ◌∷◌, arith, ◌==◌,
  if◌then◌else◌,
}
use xteam.Reactor.Types.{
  Mask, no_events, is_none, TimeEvent, FiredEvent, EventLoop, CtlOp, add, mod_, del, Interest,
  Kernel,
}
use xteam.Reactor.Files.{blank_event, event, get_file_events}
use xteam.Reactor.Callbacks.{delete_file, stop, Callbacks}
use xteam.Reactor.MaxFd.{IsBounded}
use xteam.Reactor.Masks.{IsEpoll, wanted, IsSynced}
use xteam.Reactor.TimerIds.{IsIssued}
use xteam.Reactor.Safety.{IsSound}
use xteam.Reactor.Walk.{Quiet}

abbrev pub World : Type 0
World = (ℕ → Option Interest) × List ℕ

abbrev pub change : (ℕ → Option Interest) → ℕ → Option Interest → ℕ → Option Interest
change watched fd i x = if x == fd then i else watched x

-- `epoll_ctl` over an interest list: what is asked twice, or of a stranger, fails.
abbrev pub ctl : CtlOp → ℕ → Interest → World → Bool × World
ctl add fd i w = elim (w.0 fd) [
  | none ↦ (true, (change w.0 fd (some i), w.1))
  | some j ↦ (false, w)
]
ctl mod_ fd i w = elim (w.0 fd) [
  | none ↦ (false, w)
  | some j ↦ (true, (change w.0 fd (some i), w.1))
]
ctl del fd i w = elim (w.0 fd) [ none ↦ (false, w) | some j ↦ (true, (change w.0 fd none, w.1)) ]

-- Descriptor 1 is readable and writable; the clock stands at 100.5 s.
instance unfoldable pub kernel : Kernel World
kernel = record {
  epoll_create = λ w. (some 9, w);
  epoll_ctl = λ ep op fd i w. ctl op fd i w;
  epoll_wait = λ ep room timeout w.
      (record { fd = 1; pollin = true; pollout = true; pollerr = false; pollhup = false } ∷ [], w);
  gettimeofday = λ w. (100, 500000, w);
  time = λ w. (100, w);
}

-- Each procedure logs its number; 3 takes its events away, and a timer stops the loop.
instance unfoldable pub callbacks : Callbacks World
callbacks = record {
  file_proc = λ proc l fd d mask w. (
    if proc == 3
        then delete_file fd (record { readable = true; writable = true; barrier = false }) ∷ []
        else [],
    (w.0, proc ∷ w.1),
  );
  time_proc = λ proc l id d w. (none, stop ∷ [], (w.0, proc ∷ w.1));
  finalizer_proc = λ proc l d w. ([], w);
  sleep_proc = λ proc l w. ([], w);
}

abbrev pub watching : World → ℕ → Option Interest
watching w = w.0

pub ctl-refused :
    (op : CtlOp) (fd : ℕ) (i : Interest) (w : World) (x : ℕ)
    → (ctl op fd i w).0 ≡ false
    → watching (ctl op fd i w).1 x ≡ watching w x
ctl-refused add fd i w x e = ground arith
ctl-refused mod_ fd i w x e = ground arith
ctl-refused del fd i w x e = ground arith

pub kernel-IsEpoll : IsEpoll kernel watching
unfolding kernel
kernel-IsEpoll = record {
  refused = λ ep op fd i w x e. ctl-refused op fd i w x e;
  added = λ ep fd i w x e. ground arith;
  modified = λ ep fd i w x s e. ground arith;
  deleted = λ ep fd i w x s e. ground arith;
}

abbrev pub both : Mask
both = record { readable = true; writable = true; barrier = false }

abbrev pub for_writing : Mask
for_writing = record { readable = false; writable = true; barrier = false }

abbrev pub timer : ℕ → ℕ → TimeEvent
timer id sec = record {
  id = some id;
  when_sec = sec;
  when_ms = 0;
  time_proc = 8;
  finalizer_proc = none;
  client_data = 0;
}

abbrev pub no_event : FiredEvent
no_event = record { fd = 0; mask = no_events }

-- Descriptor 1 is registered for both events; timer 0 is due and timer 1 is not.
abbrev pub sample : ℕ → ℕ → Bool → EventLoop
sample rproc wproc barrier = record {
  fd_bound = 2;
  setsize = 3;
  next_id = 2;
  last_time = 90;
  events =
      blank_event
      ∷ record {
        mask = record both { barrier = barrier };
        rfile_proc = rproc;
        wfile_proc = wproc;
        client_data = 7;
      }
      ∷ blank_event
      ∷ [];
  fired = no_event ∷ no_event ∷ no_event ∷ [];
  timers = timer 1 200 ∷ timer 0 99 ∷ [];
  stop = false;
  epfd = 9;
  before_sleep = none;
  after_sleep = none;
}

abbrev pub world : World
world = (λ x. if x == 1 then some (record { pollin = true; pollout = true }) else none, [])

pub sample_free :
    (r w : ℕ) (b : Bool) (fd : ℕ) → 2 ≤ fd → is_none (event (sample r w b) fd).mask ≡ true
sample_free r w b zero h = absurd (omega arith)
sample_free r w b (suc zero) h = absurd (omega arith)
sample_free r w b (suc (suc zero)) h = refl
sample_free r w b (suc (suc (suc fd))) h = refl

pub sample-IsBounded : (r w : ℕ) (b : Bool) → IsBounded (sample r w b)
sample-IsBounded r w b = record { sized = refl; within = omega arith; unused = sample_free r w b }

pub sample-IsIssued : (r w : ℕ) (b : Bool) → IsIssued (sample r w b)
sample-IsIssued r w b = record { unique = λ i. ground arith; unissued = λ i le. ground arith }

pub sample-IsSound : (r w : ℕ) (b : Bool) → IsSound (sample r w b)
sample-IsSound r w b = record {
  bounded = sample-IsBounded r w b;
  issued = sample-IsIssued r w b;
  room = refl;
}

pub sample-IsSynced : IsSynced watching (sample 1 2 false) world
unfolding get_file_events wanted
sample-IsSynced zero = refl
sample-IsSynced (suc zero) = refl
sample-IsSynced (suc (suc zero)) = refl
sample-IsSynced (suc (suc (suc fd))) = ground arith

-- A loop as it is created, for two descriptors.
abbrev pub fresh : EventLoop
fresh = record {
  fd_bound = 0;
  setsize = 2;
  next_id = 0;
  last_time = 100;
  events = blank_event ∷ blank_event ∷ [];
  fired = no_event ∷ no_event ∷ [];
  timers = [];
  stop = false;
  epfd = 9;
  before_sleep = none;
  after_sleep = none;
}

unfoldable pub quiet_callbacks : Callbacks World
quiet_callbacks = record {
  file_proc = λ proc l fd d mask w. ([], w);
  time_proc = λ proc l id d w. (some 500, [], (w.0, proc ∷ w.1));
  finalizer_proc = λ proc l d w. ([], w);
  sleep_proc = λ proc l w. ([], w);
}

unfoldable pub quiet : Quiet World ⦃c = quiet_callbacks⦄
unfolding quiet_callbacks
quiet = record {
  answer = λ proc id d w. (some 500, (w.0, proc ∷ w.1));
  final = λ proc d w. w;
  time_proc_lem = λ p l id d w. refl;
  finalizer_proc_lem = λ p l d w. refl;
}
