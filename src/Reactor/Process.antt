-- ===== src/Reactor/Process.antt =====
-- ae.c: one turn of the loop, and the loop; ae_epoll.c: waiting.
use xteam.Prelude.{
  ℕ, zero, suc, ◌+◌, ◌-◌, ◌*◌, ◌/◌, ◌%◌, Bool, true, false, not, ◌&&◌, ◌||◌, Option, none, some,
  List, [], ◌∷◌, ◌==◌, if◌then◌else◌, length, get_or, set,
}
use xteam.Reactor.Types.{Mask, no_events, FiredEvent, TimeEvent, EventLoop, Ready, Kernel}
use xteam.Reactor.Files.{event}
use xteam.Reactor.Timers.{get_time, search_nearest_timer}
use xteam.Reactor.Callbacks.{Callbacks, perform_all}
use xteam.Reactor.Due.{process_time_events}

-- The flags AE_FILE_EVENTS, AE_TIME_EVENTS, AE_DONT_WAIT and AE_CALL_AFTER_SLEEP.
pub record Flags : Type 0 where
  pub file_events : Bool
  pub time_events : Bool
  pub dont_wait : Bool
  pub call_after_sleep : Bool

abbrev pub all_flags : Flags
all_flags = record {
  file_events = true;
  time_events = true;
  dont_wait = false;
  call_after_sleep = true;
}

-- `struct timeval`
pub record Timeval : Type 0 where
  pub tv_sec : ℕ
  pub tv_usec : ℕ

-- The time from now to the nearest event, none if it is past: `ms`, then its two parts.
unfoldable pub time_until : TimeEvent → ℕ → ℕ → Timeval
time_until te now_sec now_ms =
    let ms = te.when_sec * 1000 + te.when_ms - (now_sec * 1000 + now_ms) in
    record { tv_sec = ms / 1000; tv_usec = ms % 1000 * 1000 }

-- The mask that `aeApiPoll` makes of an event of epoll.
unfoldable pub ready_mask : Ready → Mask
ready_mask r = record {
  readable = r.pollin;
  writable = r.pollout || (r.pollerr || r.pollhup);
  barrier = false;
}

-- The loop that writes `fired`, from slot `j` on.
unfoldable pub write_fired : ℕ → List Ready → List FiredEvent → List FiredEvent
unfolding ready_mask
write_fired j [] fs = fs
write_fired j (r ∷ rs) fs =
    write_fired (j + 1) rs (set fs j (record { fd = r.fd; mask = ready_mask r }))

module _ {W : Type 0} ⦃k : Kernel W⦄ where
  -- `aeApiPoll`: the number of events, and the loop with them in `fired`.
  unfoldable pub api_poll : Option Timeval → EventLoop → W → ℕ × EventLoop × W
  unfolding write_fired
  api_poll tvp l w =
      let timeout : Option ℕ = elim tvp [
        | none ↦ none
        | some tv ↦ some (tv.tv_sec * 1000 + tv.tv_usec / 1000)
      ] in
      let (ready, w') = k.epoll_wait l.epfd l.setsize timeout w in
      (length ready, record l { fired = write_fired 0 ready l.fired }, w')

  -- How long to wait: until the nearest event, not at all, or without end.
  unfoldable pub wait_time : Flags → EventLoop → W → Option Timeval × W
  unfolding search_nearest_timer get_time time_until
  wait_time flags l w =
      let shortest =
        if flags.time_events && not flags.dont_wait then search_nearest_timer l else none in
      elim shortest [
        | some te ↦
            let (now_sec, now_ms, w') = get_time w in (some (time_until te now_sec now_ms), w')
        | none ↦ (if flags.dont_wait then some (record { tv_sec = 0; tv_usec = 0 }) else none, w)
      ]

module _ {W : Type 0} ⦃k : Kernel W⦄ ⦃c : Callbacks W⦄ where
  -- A call through `rfileProc` or `wfileProc`.
  unfoldable pub call_file : ℕ → ℕ → ℕ → Mask → EventLoop → W → EventLoop × W
  unfolding perform_all
  call_file proc fd data' mask l w =
      let (acts, w') = c.file_proc proc l fd data' mask w in perform_all acts l w'

  unfoldable pub call_sleep : Option ℕ → EventLoop → W → EventLoop × W
  unfolding perform_all
  call_sleep none l w = (l, w)
  call_sleep (some p) l w = let (acts, w') = c.sleep_proc p l w in perform_all acts l w'

  -- The readable event of one descriptor, if `go`: the slot is read anew. `fired` counts the calls.
  unfoldable pub call_readable : Bool → ℕ → Mask → ℕ → EventLoop → W → ℕ × EventLoop × W
  unfolding call_file
  call_readable go fd mask fired l w =
      let fe = event l fd in
      let (l', w') = call_file fe.rfile_proc fd fe.client_data mask l w in
      if go && (fe.mask.readable && mask.readable) then (fired + 1, l', w') else (fired, l, w)

  -- The writable event; a procedure that both events share is called once.
  unfoldable pub call_writable : ℕ → Mask → ℕ → EventLoop → W → ℕ × EventLoop × W
  unfolding call_file
  call_writable fd mask fired l w =
      let fe = event l fd in
      let (l', w') = call_file fe.wfile_proc fd fe.client_data mask l w in
      if fe.mask.writable && mask.writable && (fired == 0 || not (fe.wfile_proc == fe.rfile_proc))
      then (fired + 1, l', w')
      else (fired, l, w)

  -- The events of one descriptor, in the order that its AE_BARRIER asks for.
  unfoldable pub dispatch : ℕ → Mask → EventLoop → W → EventLoop × W
  unfolding call_readable call_writable
  dispatch fd mask l w =
      let invert = (event l fd).mask.barrier in
      let (fired1, l1, w1) = call_readable (not invert) fd mask 0 l w in
      let (fired2, l2, w2) = call_writable fd mask fired1 l1 w1 in
      let fe = event l2 fd in
      let (fired3, l3, w3) =
        call_readable (invert && (fired2 == 0 || not (fe.wfile_proc == fe.rfile_proc))) fd mask
          fired2 l2 w2 in
      (l3, w3)

  -- The loop over the fired events, `n` rounds from slot `j` on.
  unfoldable pub dispatch_from : ℕ → ℕ → EventLoop → W → EventLoop × W
  unfolding dispatch
  dispatch_from zero j l w = (l, w)
  dispatch_from (suc n) j l w =
      let f = get_or l.fired j (record { fd = 0; mask = no_events }) in
      let (l', w') = dispatch f.fd f.mask l w in dispatch_from n (j + 1) l' w'

  -- The first half of `aeProcessEvents`: wait, and process what fired.
  unfoldable pub process_file_events : Flags → EventLoop → W → ℕ × EventLoop × W
  unfolding wait_time api_poll call_sleep dispatch_from
  process_file_events flags l w =
      let (tvp, w1) = wait_time flags l w in
      let (numevents, l2, w2) = api_poll tvp l w1 in
      let (l3, w3) = call_sleep (if flags.call_after_sleep then l2.after_sleep else none) l2 w2 in
      let (l4, w4) = dispatch_from numevents 0 l3 w3 in (numevents, l4, w4)

  -- `aeProcessEvents`
  unfoldable pub process_events : Flags → EventLoop → W → ℕ × EventLoop × W
  unfolding process_file_events process_time_events
  process_events flags l w =
      let (n, l1, w1) =
        if not (l.fd_bound == 0) || (flags.time_events && not flags.dont_wait)
        then process_file_events flags l w
        else (0, l, w) in
      let (m, l2, w2) = process_time_events l1 w1 in
      if not flags.time_events && not flags.file_events
      then (0, l, w)
      else if flags.time_events
      then (n + m, l2, w2)
      else (n, l1, w1)

  -- One round of `aeMain`.
  unfoldable pub turn : EventLoop → W → EventLoop × W
  unfolding call_sleep process_events
  turn l w =
      let (l1, w1) = call_sleep l.before_sleep l w in
      let (n, l2, w2) = process_events all_flags l1 w1 in (l2, w2)

  -- The loop of `aeMain`; `none` where it is still running after that many rounds.
  unfoldable pub run : ℕ → EventLoop → W → Option (EventLoop × W)
  unfolding turn
  run zero l w = if l.stop then some (l, w) else none
  run (suc n) l w = elim l.stop [
    | true ↦ some (l, w)
    | false ↦ let (l', w') = turn l w in run n l' w'
  ]

  -- `aeMain`
  unfoldable pub main : ℕ → EventLoop → W → Option (EventLoop × W)
  unfolding run
  main n l w = run n (record l { stop = false }) w
