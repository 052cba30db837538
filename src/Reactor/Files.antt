-- ===== src/Reactor/Files.antt =====
-- ae.c: creation and resizing of the loop, and file events; ae_epoll.c: the requests to epoll.
use xteam.Prelude.{
  ℕ, zero, suc, ◌+◌, ◌-◌, Bool, true, false, ◌&&◌, Option, none, some, List, [], ◌∷◌, ltb, leb,
  ◌==◌, if◌then◌else◌, get_or, set,
}
use xteam.Reactor.Types.{
  Mask, is_none, no_events, mask_or, mask_minus, Status, ok, err, FileEvent, FiredEvent, EventLoop,
  add, mod_, del, Interest, Kernel,
}

-- What the memory of a slot is taken to hold where none was written.
abbrev pub blank_event : FileEvent
blank_event = record { mask = no_events; rfile_proc = 0; wfile_proc = 0; client_data = 0 }

-- `eventLoop->events[fd]`
abbrev pub event : EventLoop → ℕ → FileEvent
event l fd = get_or l.events fd blank_event

-- `zrealloc` of an array to `n` slots: new slots hold what the memory held, `junk`.
unfoldable pub realloc {ℓ} : {A : Type ℓ} → A → ℕ → List A → List A
realloc junk zero xs = []
realloc junk (suc n) [] = junk ∷ realloc junk n []
realloc junk (suc n) (x ∷ xs) = x ∷ realloc junk n xs

-- `for (; i < setsize; i++) events[i].mask = AE_NONE`, `n` rounds from `i` on.
unfoldable pub clear_masks : ℕ → ℕ → List FileEvent → List FileEvent
clear_masks zero i es = es
clear_masks (suc n) i es =
    clear_masks n (i + 1) (set es i (record (get_or es i blank_event) { mask = no_events }))

-- The loop of `aeDeleteFileEvent` that finds the new `maxfd`: among the slots below `n`, one past
-- the last that is in use.
unfoldable pub last_used : List FileEvent → ℕ → ℕ
last_used es zero = 0
last_used es (suc j) = elim (is_none (get_or es j blank_event).mask) [
  | false ↦ suc j
  | true ↦ last_used es j
]

-- The slot that `aeCreateFileEvent` leaves.
abbrev pub registered : Mask → ℕ → ℕ → FileEvent → FileEvent
registered mask proc data' fe = record {
  mask = mask_or fe.mask mask;
  rfile_proc = if mask.readable then proc else fe.rfile_proc;
  wfile_proc = if mask.writable then proc else fe.wfile_proc;
  client_data = data';
}

-- The mask that `aeDeleteFileEvent` removes: AE_BARRIER goes with AE_WRITABLE.
abbrev pub removal : Mask → Mask
removal mask = if mask.writable then record mask { barrier = true } else mask

-- The slot that it leaves.
abbrev pub unregistered : Mask → FileEvent → FileEvent
unregistered mask fe = record fe { mask = mask_minus fe.mask (removal mask) }

-- The bits that a mask asks of epoll.
abbrev pub interest : Mask → Interest
interest m = record { pollin = m.readable; pollout = m.writable }

module _ {W : Type 0} ⦃k : Kernel W⦄ where
  -- `aeApiAddEvent`
  unfoldable pub api_add_event : EventLoop → ℕ → Mask → W → Bool × W
  api_add_event l fd mask =
      let old = (event l fd).mask in
      k.epoll_ctl l.epfd (if is_none old then add else mod_) fd (interest (mask_or mask old))

  -- `aeApiDelEvent`, which ignores what the call returns.
  unfoldable pub api_del_event : EventLoop → ℕ → Mask → W → W
  api_del_event l fd delmask w =
      let mask = mask_minus (event l fd).mask delmask in
      (k.epoll_ctl l.epfd (if is_none mask then del else mod_) fd (interest mask) w).1

  -- `aeApiCreate`: the descriptor of epoll, if there is one; memory does not fail.
  unfoldable pub api_create : W → Option ℕ × W
  api_create = k.epoll_create

  -- `aeCreateEventLoop`: `zmalloc` does not return without memory, so that only `epoll_create` can
  -- fail. The arrays hold what the memory held.
  unfoldable pub create_event_loop : FileEvent → FiredEvent → ℕ → W → Option EventLoop × W
  unfolding realloc clear_masks api_create
  create_event_loop junk junk' setsize w =
      let (now, w1) = k.time w in
      let (got, w2) = api_create w1 in
      let made : ℕ → EventLoop = λ epfd. record {
        fd_bound = 0;
        setsize = setsize;
        next_id = 0;
        last_time = now;
        events = clear_masks setsize 0 (realloc junk setsize []);
        fired = realloc junk' setsize [];
        timers = [];
        stop = false;
        epfd = epfd;
        before_sleep = none;
        after_sleep = none;
      } in
      (elim got [ none ↦ none | some epfd ↦ some (made epfd) ], w2)

  -- `aeCreateFileEvent`
  unfoldable pub create_file_event : ℕ → Mask → ℕ → ℕ → EventLoop → W → Status × EventLoop × W
  unfolding api_add_event
  create_file_event fd mask proc data' l w =
      let fe = event l fd in
      let (done, w') = api_add_event l fd mask w in
      let l' = record l {
        events = set l.events fd (registered mask proc data' fe);
        fd_bound = if ltb l.fd_bound (fd + 1) then fd + 1 else l.fd_bound;
      } in
      if leb l.setsize fd then (err, l, w) else if done then (ok, l', w') else (err, l, w')

  -- `aeDeleteFileEvent`
  unfoldable pub delete_file_event : ℕ → Mask → EventLoop → W → EventLoop × W
  unfolding api_del_event last_used
  delete_file_event fd mask l w =
      let fe = event l fd in
      let mask' = removal mask in
      let events' = set l.events fd (unregistered mask fe) in
      let bound =
        if (fd + 1) == l.fd_bound && is_none (unregistered mask fe).mask
        then last_used events' (l.fd_bound - 1)
        else l.fd_bound in
      if leb l.setsize fd
      then (l, w)
      else if is_none fe.mask
      then (l, w)
      else (record l { events = events'; fd_bound = bound }, api_del_event l fd mask' w)

-- `aeGetFileEvents`
unfoldable pub get_file_events : EventLoop → ℕ → Mask
get_file_events l fd = if leb l.setsize fd then no_events else (event l fd).mask

-- `aeResizeSetSize`; the array of `aeApiResize` is only a buffer of the call of `epoll_wait`.
unfoldable pub resize_set_size : FileEvent → FiredEvent → ℕ → EventLoop → Status × EventLoop
unfolding realloc clear_masks
resize_set_size junk junk' setsize l =
    if setsize == l.setsize then (ok, l) else if ltb setsize l.fd_bound then (err, l) else (
      ok,
      record l {
        events = clear_masks (setsize - l.fd_bound) l.fd_bound (realloc junk setsize l.events);
        fired = realloc junk' setsize l.fired;
        setsize = setsize;
      },
    )
