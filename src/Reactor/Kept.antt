-- ===== src/Reactor/Kept.antt =====
-- ae.c: what the public functions of the loop keep, a turn of the loop keeps, whatever the callbacks
-- ask for.
use mathlib.Core.Path.{subst}
use mathlib.Core.Option.{some-injective}
use xteam.Prelude.{
  ℕ, zero, suc, ◌+◌, ◌*◌, ◌/◌, ◌≤◌, ◌≡◌, refl, sym, ◌∙◌, inl, inr, Bool, true, false, not, ◌&&◌,
  ◌||◌, Option, none, some, List, [], ◌∷◌, map, arith, ltb, leb, ◌==◌, if◌then◌else◌, Bool-cases,
  Option-cases, length, get_or,
}
use xteam.Reactor.Types.{Mask, no_events, FiredEvent, TimeEvent, EventLoop, Kernel}
use xteam.Reactor.Timers.{get_time}
use xteam.Reactor.Files.{event}
use xteam.Reactor.Callbacks.{Action, Callbacks, perform, perform_all}
use xteam.Reactor.Due.{
  at_position, remove_position, is_due, reap, fire, process_one, process_from, process_time_events,
}
use xteam.Reactor.Process.{
  Flags, Timeval, all_flags, wait_time, api_poll, write_fired, call_file, call_sleep, call_readable,
  call_writable, dispatch, dispatch_from, process_file_events, process_events, turn, run,
}
use xteam.Reactor.TimerIds.{with_id}
use xteam.Reactor.Rewrites.{
  with_id-remove, with_id-retire, with_id-put_off, with_id-zeroed, length-write_fired,
}

-- What is kept by the public functions and by the loop's own writes: to `fired`, to `lastTime`, and
-- to the list of timers, where an id may go and none may come.
pub record IsKept (W : Type 0) ⦃k : Kernel W⦄ (P : EventLoop → Type 0) : Type 0 where
  pub performed : (a : Action) (l : EventLoop) (w : W) → P l → P (perform a l w).0
  pub timers_kept :
      (l : EventLoop) (ts : List TimeEvent) (t : ℕ)
      → ((i : ℕ) → with_id i ts ≤ with_id i l.timers)
      → P l
      → P (record l { last_time = t; timers = ts })
  pub fired_kept :
      (l : EventLoop) (fs : List FiredEvent)
      → length fs ≡ length l.fired
      → P l
      → P (record l { fired = fs })

otherwise : {A : Type 0} → (b : Bool) (x y : A) → b ≡ false → elim b [ true ↦ x | false ↦ y ] ≡ y
otherwise b x y e = rw e refl

module _ {W : Type 0} ⦃k : Kernel W⦄ ⦃c : Callbacks W⦄ {P : EventLoop → Type 0}
    (kept : IsKept W P) where
  perform_all_keeps :
      (acts : List Action) (l : EventLoop) (w : W) → P l → P (perform_all acts l w).0
  unfolding perform_all
  perform_all_keeps [] l w h = h
  perform_all_keeps (a ∷ acts) l w h = perform_all_keeps acts _ _ (kept.performed a l w h)

  reap_keeps : (pos : ℕ) (te : TimeEvent) (l : EventLoop) (w : W) → P l → P (reap pos te l w).0
  unfolding reap
  reap_keeps pos te l w h =
      let removed =
        kept.timers_kept l (remove_position pos l.timers) l.last_time
          (λ i. with_id-remove i pos l.timers) h in
      elim (Option-cases te.finalizer_proc) [
        | inl e ↦ rw (e, reap) removed
        | inr (f, e) ↦
            let l' = record l { timers = remove_position pos l.timers } in
            let call = c.finalizer_proc f l' te.client_data w in
            rw (e, reap) (perform_all_keeps call.0 l' call.1 removed)
      ]

  fire_keeps :
      (pos : ℕ) (te : TimeEvent) (id : ℕ) (l : EventLoop) (w : W) → P l → P (fire pos te id l w).0
  unfolding fire
  fire_keeps pos te id l w h =
      let call = c.time_proc te.time_proc l id te.client_data w in
      let done = perform_all call.1 l call.2 in
      let called = perform_all_keeps call.1 l call.2 h in
      elim (Option-cases call.0) [
        | inl e ↦
            rw (e, fire)
              (kept.timers_kept done.0 _ done.0.last_time (λ i. with_id-retire i pos done.0.timers)
                called)
        | inr (ms, e) ↦
            rw (e, fire)
              (kept.timers_kept done.0 _ done.0.last_time
                (λ i. with_id-put_off i pos _ _ done.0.timers) called)
      ]

  either_keeps : (b : Bool) (x y : ℕ × EventLoop × W) → P x.1 → P y.1 → P (if b then x else y).1
  either_keeps true x y h h' = h
  either_keeps false x y h h' = h'

  process_one_keeps :
      (new_id pos : ℕ) (l : EventLoop) (w : W) → P l → P (process_one new_id pos l w).1
  unfolding process_one
  process_one_keeps new_id pos l w h = elim (Option-cases (at_position pos l.timers)) [
    | inl e ↦ rw (e, process_one) h
    | inr (te, e) ↦ elim (Option-cases te.id) [
      | inl f ↦ rw (e, process_one) (rw f (reap_keeps pos te l w h))
      | inr (id, f) ↦
          let now = get_time w in
          rw (e, process_one)
            (rw f (
              either_keeps (leb new_id id) _ _ h
                (either_keeps (is_due now.0 now.1 te) _ _ (fire_keeps pos te id l now.2 h) h)))
    ]
  ]

  process_from_keeps :
      (new_id n processed : ℕ) (l : EventLoop) (w : W)
      → P l
      → P (process_from new_id n processed l w).1
  unfolding process_from
  process_from_keeps new_id zero processed l w h = h
  process_from_keeps new_id (suc n) processed l w h =
      process_from_keeps new_id n _ _ _ (process_one_keeps new_id n l w h)

  pub process_time_events_keeps : (l : EventLoop) (w : W) → P l → P (process_time_events l w).1
  unfolding process_time_events
  process_time_events_keeps l w h =
      let (now, w') = k.time w in
      let zeroed = map (λ (te : TimeEvent). record te { when_sec = 0 }) l.timers in
      let ts = if ltb now l.last_time then zeroed else l.timers in
      process_from_keeps l.next_id (length ts) 0 (record l { last_time = now; timers = ts }) w'
        (kept.timers_kept l ts now (λ i. ground (arith, with_id-zeroed i l.timers)) h)

  call_file_keeps :
      (proc fd data' : ℕ) (mask : Mask) (l : EventLoop) (w : W)
      → P l
      → P (call_file proc fd data' mask l w).0
  unfolding call_file
  call_file_keeps proc fd data' mask l w h =
      let call = c.file_proc proc l fd data' mask w in perform_all_keeps call.0 l call.1 h

  call_readable_keeps :
      (go : Bool) (fd : ℕ) (mask : Mask) (fired : ℕ) (l : EventLoop) (w : W)
      → P l
      → P (call_readable go fd mask fired l w).1
  unfolding call_readable
  call_readable_keeps go fd mask fired l w h =
      let fe = event l fd in
      let r = call_file fe.rfile_proc fd fe.client_data mask l w in
      either_keeps (go && (fe.mask.readable && mask.readable)) (fired + 1, r.0, r.1) (fired, l, w)
        (call_file_keeps fe.rfile_proc fd fe.client_data mask l w h) h

  call_writable_keeps :
      (fd : ℕ) (mask : Mask) (fired : ℕ) (l : EventLoop) (w : W)
      → P l
      → P (call_writable fd mask fired l w).1
  unfolding call_writable
  call_writable_keeps fd mask fired l w h =
      let fe = event l fd in
      let r = call_file fe.wfile_proc fd fe.client_data mask l w in
      either_keeps
        (fe.mask.writable && mask.writable && (fired == 0 || not (fe.wfile_proc == fe.rfile_proc)))
        (fired + 1, r.0, r.1) (fired, l, w)
        (call_file_keeps fe.wfile_proc fd fe.client_data mask l w h) h

  dispatch_keeps : (fd : ℕ) (mask : Mask) (l : EventLoop) (w : W) → P l → P (dispatch fd mask l w).0
  unfolding dispatch
  dispatch_keeps fd mask l w h =
      let invert = (event l fd).mask.barrier in
      let r1 = call_readable (not invert) fd mask 0 l w in
      let r2 = call_writable fd mask r1.0 r1.1 r1.2 in
      let fe = event r2.1 fd in
      call_readable_keeps (invert && (r2.0 == 0 || not (fe.wfile_proc == fe.rfile_proc))) fd mask
        r2.0 r2.1 r2.2
        (call_writable_keeps fd mask r1.0 r1.1 r1.2
          (call_readable_keeps (not invert) fd mask 0 l w h))

  dispatch_from_keeps : (n j : ℕ) (l : EventLoop) (w : W) → P l → P (dispatch_from n j l w).0
  unfolding dispatch_from
  dispatch_from_keeps zero j l w h = h
  dispatch_from_keeps (suc n) j l w h =
      let f = get_or l.fired j (record { fd = 0; mask = no_events }) in
      let r = dispatch f.fd f.mask l w in
      dispatch_from_keeps n (j + 1) r.0 r.1 (dispatch_keeps f.fd f.mask l w h)

  call_sleep_keeps : (p : Option ℕ) (l : EventLoop) (w : W) → P l → P (call_sleep p l w).0
  unfolding call_sleep
  call_sleep_keeps none l w h = h
  call_sleep_keeps (some p) l w h =
      let call = c.sleep_proc p l w in perform_all_keeps call.0 l call.1 h

  api_poll_keeps : (tvp : Option Timeval) (l : EventLoop) (w : W) → P l → P (api_poll tvp l w).1
  unfolding api_poll
  api_poll_keeps tvp l w h =
      let timeout : Option ℕ = elim tvp [
        | none ↦ none
        | some tv ↦ some (tv.tv_sec * 1000 + tv.tv_usec / 1000)
      ] in
      let ready = (k.epoll_wait l.epfd l.setsize timeout w).0 in
      kept.fired_kept l (write_fired 0 ready l.fired) (length-write_fired 0 ready l.fired) h

  process_file_events_keeps :
      (flags : Flags) (l : EventLoop) (w : W) → P l → P (process_file_events flags l w).1
  unfolding process_file_events
  process_file_events_keeps flags l w h =
      let (tvp, w1) = wait_time flags l w in
      let r = api_poll tvp l w1 in
      let p = if flags.call_after_sleep then r.1.after_sleep else none in
      let s = call_sleep p r.1 r.2 in
      dispatch_from_keeps r.0 0 s.0 s.1 (call_sleep_keeps p r.1 r.2 (api_poll_keeps tvp l w1 h))

  pub process_events_keeps :
      (flags : Flags) (l : EventLoop) (w : W) → P l → P (process_events flags l w).1
  unfolding process_events
  process_events_keeps flags l w h =
      let go = not (l.fd_bound == 0) || (flags.time_events && not flags.dont_wait) in
      let r = process_file_events flags l w in
      let one = if go then r else (0, l, w) in
      let two = process_time_events one.1 one.2 in
      let first = either_keeps go r (0, l, w) (process_file_events_keeps flags l w h) h in
      either_keeps (not flags.time_events && not flags.file_events) (0, l, w)
        (if flags.time_events then (one.0 + two.0, two.1, two.2) else one) h
        (either_keeps flags.time_events (one.0 + two.0, two.1, two.2) one
          (process_time_events_keeps one.1 one.2 first) first)

  pub turn_keeps : (l : EventLoop) (w : W) → P l → P (turn l w).0
  unfolding turn
  turn_keeps l w h =
      let s = call_sleep l.before_sleep l w in
      process_events_keeps all_flags s.0 s.1 (call_sleep_keeps l.before_sleep l w h)

  run-stopped : (n : ℕ) (l : EventLoop) (w : W) → l.stop ≡ true → run n l w ≡ some (l, w)
  unfolding run
  run-stopped zero l w s = rw s refl
  run-stopped (suc n) l w s = rw s refl

  run-unfinished : (l : EventLoop) (w : W) → l.stop ≡ false → run zero l w ≡ none
  unfolding run
  run-unfinished l w s = rw s refl

  run-turns :
      (n : ℕ) (l : EventLoop) (w : W)
      → l.stop ≡ false
      → run (suc n) l w ≡ run n (turn l w).0 (turn l w).1
  unfolding run
  run-turns n l w s = otherwise l.stop (some (l, w)) (run n (turn l w).0 (turn l w).1) s

  stopped :
      (n : ℕ) (l : EventLoop) (w : W) (l' : EventLoop) (w' : W)
      → P l
      → l.stop ≡ true
      → run n l w ≡ some (l', w')
      → P l' × (l'.stop ≡ true)
  stopped n l w l' w' h s e =
      let same = some-injective (l, w) (l', w') (sym (run-stopped n l w s) ∙ e) in
      subst (λ (r : EventLoop × W). P r.0 × (r.0.stop ≡ true)) same (h, s)

  -- Where the loop ends, it ends by its flag.
  pub run_keeps :
      (n : ℕ) (l : EventLoop) (w : W) (l' : EventLoop) (w' : W)
      → P l
      → run n l w ≡ some (l', w')
      → P l' × (l'.stop ≡ true)
  run_keeps zero l w l' w' h e = elim (Bool-cases l.stop) [
    | inl s ↦ stopped zero l w l' w' h s e
    | inr s ↦ let e' = run-unfinished l w s in cc
  ]
  run_keeps (suc n) l w l' w' h e = elim (Bool-cases l.stop) [
    | inl s ↦ stopped (suc n) l w l' w' h s e
    | inr s ↦
        run_keeps n (turn l w).0 (turn l w).1 l' w' (turn_keeps l w h) (sym (run-turns n l w s) ∙ e)
  ]
