-- ===== src/Reactor/Walk.antt =====
-- ae.c, `processTimeEvents`: where the callbacks neither read the loop nor ask for a call of it,
-- the walk by positions is a walk down the list.
use xteam.Prelude.{
  ℕ, ◌+◌, ◌≡◌, refl, sym, ap, ◌∙◌, Bool, true, false, Option, none, some, List, [], ◌∷◌, ◌++◌, map,
  arith, ltb, leb, if◌then◌else◌, length,
}
use xteam.Reactor.Types.{TimeEvent, EventLoop, Kernel}
use xteam.Reactor.Timers.{get_time, add_milliseconds_to_now}
use xteam.Reactor.Callbacks.{Action, Callbacks, perform_all}
use xteam.Reactor.Due.{
  change_position, is_due, reap, fire, process_one, process_from, process_time_events,
}
use xteam.Reactor.Positions.{
  at_position-append, change_position-append, remove_position-append, append-append,
}

-- What the procedures answer, where they ask for no call of the loop and do not read it.
pub record Quiet (W : Type 0) ⦃c : Callbacks W⦄ : Type 0 where
  pub answer : ℕ → ℕ → ℕ → W → Option ℕ × W
  pub final : ℕ → ℕ → W → W
  pub time_proc_lem :
      (p : ℕ) (l : EventLoop) (id d : ℕ) (w : W)
      → c.time_proc p l id d w ≡ ((answer p id d w).0, [], (answer p id d w).1)
  pub finalizer_proc_lem :
      (p : ℕ) (l : EventLoop) (d : ℕ) (w : W) → c.finalizer_proc p l d w ≡ ([], final p d w)

module _ {W : Type 0} ⦃k : Kernel W⦄ ⦃c : Callbacks W⦄ (q : Quiet W) where
  -- What becomes of a due event of that id.
  unfoldable pub settle_due : TimeEvent → ℕ → W → TimeEvent × W
  settle_due te id w =
      let (retval, w1) = q.answer te.time_proc id te.client_data w in
      elim retval [
        | none ↦ (record te { id = none }, w1)
        | some ms ↦
            let (sec, ms', w2) = add_milliseconds_to_now ms w1 in
            (record te { when_sec = sec; when_ms = ms' }, w2)
      ]

  -- What becomes of one event: how many calls are counted, what is left of it in the list.
  unfoldable pub settle_one : ℕ → TimeEvent → W → ℕ × List TimeEvent × W
  unfolding settle_due
  settle_one new_id te w = elim te.id [
    | none ↦ (0, [], elim te.finalizer_proc [ none ↦ w | some f ↦ q.final f te.client_data w ])
    | some id ↦
        let (now_sec, now_ms, w1) = get_time w in
        let (te', w2) = settle_due te id w1 in
        if leb new_id id
        then (0, te ∷ [], w)
        else if is_due now_sec now_ms te
        then (1, te' ∷ [], w2)
        else (0, te ∷ [], w1)
  ]

  -- The events of a list, from its head on.
  unfoldable pub settle : ℕ → List TimeEvent → W → ℕ × List TimeEvent × W
  unfolding settle_one
  settle new_id [] w = (0, [], w)
  settle new_id (te ∷ ts) w =
      let (n, left, w1) = settle_one new_id te w in
      let (n', left', w2) = settle new_id ts w1 in (n + n', left ++ left', w2)

through_option :
    {A B : Type 0}
    → (f : A → B) (o : Option ℕ) (x : A) (y : ℕ → A) (x' : B) (y' : ℕ → B) → x' ≡ f x
    → ((i : ℕ) → y' i ≡ f (y i))
    → elim o [ none ↦ x' | some i ↦ y' i ] ≡ f (elim o [ none ↦ x | some i ↦ y i ])
through_option f none x y x' y' e g = e
through_option f (some i) x y x' y' e g = g i

through_if :
    {A B : Type 0}
    → (f : A → B) (b : Bool) (x y : A) (x' y' : B) → x' ≡ f x
    → y' ≡ f y
    → (if b then x' else y') ≡ f (if b then x else y)
through_if f true x y x' y' e g = e
through_if f false x y x' y' e g = g

module _ {W : Type 0} ⦃k : Kernel W⦄ ⦃c : Callbacks W⦄ (q : Quiet W) where
  reap-settles :
      (te : TimeEvent) (l : EventLoop) (before after : List TimeEvent) (w : W)
      → reap (length after) te (record l { timers = before ++ te ∷ after }) w ≡ (
        record l { timers = before ++ after },
        elim te.finalizer_proc [ none ↦ w | some f ↦ q.final f te.client_data w ],
      )
  unfolding reap perform_all
  reap-settles te l before after w =
      let l' : EventLoop = record l { timers = before ++ after } in
      let finish : List TimeEvent → EventLoop × W = λ ts.
        let l'' : EventLoop = record l { timers = ts } in
        elim te.finalizer_proc [
          | none ↦ (l'', w)
          | some f ↦
              let (acts, w') = c.finalizer_proc f l'' te.client_data w in perform_all acts l'' w'
        ] in
      ap finish (remove_position-append before te after)
      ∙ through_option (λ (w' : W). (l', w')) te.finalizer_proc w (λ f. q.final f te.client_data w)
          (l', w) (λ f. let r = c.finalizer_proc f l' te.client_data w in perform_all r.0 l' r.1)
          refl
          (λ f.
            ap (λ (r : List Action × W). perform_all r.0 l' r.1)
              (q.finalizer_proc_lem f l' te.client_data w))

  fire-settles :
      (te : TimeEvent) (id : ℕ) (l : EventLoop) (before after : List TimeEvent) (w : W)
      → fire (length after) te id (record l { timers = before ++ te ∷ after }) w ≡ (
        record l { timers = before ++ (settle_due q te id w).0 ∷ after },
        (settle_due q te id w).1,
      )
  unfolding fire perform_all settle_due
  fire-settles te id l before after w =
      let l' : EventLoop = record l { timers = before ++ te ∷ after } in
      let pos = length after in
      let r = q.answer te.time_proc id te.client_data w in
      let changed : (TimeEvent → TimeEvent) → EventLoop → EventLoop =
        λ f x. record x { timers = change_position pos f x.timers } in
      let finish : Option ℕ × List Action × W → EventLoop × W = λ call.
        let done = perform_all call.1 l' call.2 in
        elim call.0 [
          | none ↦ (changed (λ t. record t { id = none }) done.0, done.1)
          | some ms ↦
              let (sec, ms', w3) = add_milliseconds_to_now ms done.1 in
              (changed (λ t. record t { when_sec = sec; when_ms = ms' }) done.0, w3)
        ] in
      let put : (TimeEvent × W) → EventLoop × W =
        λ x. (record l { timers = before ++ x.0 ∷ after }, x.1) in
      ap finish (q.time_proc_lem te.time_proc l' id te.client_data w)
      ∙ through_option put r.0 (record te { id = none }, r.1)
          (λ ms.
            let (sec, ms', w3) = add_milliseconds_to_now ms r.1 in
            (record te { when_sec = sec; when_ms = ms' }, w3))
          (finish (none, [], r.1)) (λ ms. finish (some ms, [], r.1))
          (ap (λ (ts : List TimeEvent). (record l { timers = ts }, r.1))
            (change_position-append (λ t. record t { id = none }) before te after))
          (λ ms.
            let (sec, ms', w3) = add_milliseconds_to_now ms r.1 in
            ap (λ (ts : List TimeEvent). (record l { timers = ts }, w3))
              (change_position-append (λ t. record t { when_sec = sec; when_ms = ms' }) before te
                after))

  process_one-settles :
      (new_id : ℕ) (te : TimeEvent) (l : EventLoop) (before after : List TimeEvent) (w : W)
      → let (n, left, w') = settle_one q new_id te w in
        process_one new_id (length after) (record l { timers = before ++ te ∷ after }) w
        ≡ (n, record l { timers = before ++ (left ++ after) }, w')
  unfolding process_one settle_one
  process_one-settles new_id te l before after w =
      let l' : EventLoop = record l { timers = before ++ te ∷ after } in
      let pos = length after in
      let put : ℕ × List TimeEvent × W → ℕ × EventLoop × W =
        λ r. (r.0, record l { timers = before ++ (r.1 ++ after) }, r.2) in
      let reaped : ℕ × EventLoop × W = let (x, w') = reap pos te l' w in (0, x, w') in
      let now = get_time w in
      let fired : ℕ → EventLoop × W = λ id. fire pos te id l' now.2 in
      let live : ℕ → ℕ × EventLoop × W = λ id.
        if leb new_id id
        then (0, l', w)
        else if is_due now.0 now.1 te
        then (1, (fired id).0, (fired id).1)
        else (0, l', now.2) in
      let due : ℕ → TimeEvent × W = λ id. settle_due q te id now.2 in
      let found : Option TimeEvent → ℕ × EventLoop × W = λ o. elim o [
        | none ↦ (0, l', w)
        | some t ↦ elim t.id [
          | none ↦ let (x, w') = reap pos t l' w in (0, x, w')
          | some id ↦
              if leb new_id id
              then (0, l', w)
              else if is_due now.0 now.1 t
              then (1, (fire pos t id l' now.2).0, (fire pos t id l' now.2).1)
              else (0, l', now.2)
        ]
      ] in
      ap found (at_position-append before te after)
      ∙ through_option put te.id
          (0, [], elim te.finalizer_proc [ none ↦ w | some f ↦ q.final f te.client_data w ])
          (λ id.
            if leb new_id id
            then (0, te ∷ [], w)
            else if is_due now.0 now.1 te
            then (1, (due id).0 ∷ [], (due id).1)
            else (0, te ∷ [], now.2))
          reaped live (ap (λ (x : EventLoop × W). (0, x.0, x.1)) (reap-settles te l before after w))
          (λ id. through_if put (leb new_id id) _ _ _ _ refl (
            through_if put (is_due now.0 now.1 te) (1, (due id).0 ∷ [], (due id).1)
              (0, te ∷ [], now.2) (1, (fired id).0, (fired id).1) (0, l', now.2)
              (ap (λ (x : EventLoop × W). (1, x.0, x.1)) (fire-settles te id l before after now.2))
              refl))

  process_from-settles :
      (new_id processed : ℕ) (l : EventLoop) (before ts : List TimeEvent) (w : W)
      → let (n, left, w') = settle q new_id ts w in
        process_from new_id (length ts) processed (record l { timers = before ++ ts }) w
        ≡ (processed + n, record l { timers = before ++ left }, w')
  unfolding process_from settle
  process_from-settles new_id processed l before [] w =
      ap (λ x. (x, record l { timers = before ++ [] }, w)) (omega arith)
  process_from-settles new_id processed l before (te ∷ ts) w =
      let one = settle_one q new_id te w in
      let rest = settle q new_id ts one.2 in
      let go : ℕ × EventLoop × W → ℕ × EventLoop × W =
        λ r. process_from new_id (length ts) (processed + r.0) r.1 r.2 in
      let regroup : (ys : List TimeEvent) → before ++ one.1 ++ ys ≡ before ++ (one.1 ++ ys) =
        λ ys. append-append before one.1 ys in
      ap go (process_one-settles new_id te l before ts w)
      ∙ ap
          (λ xs.
            process_from new_id (length ts) (processed + one.0) (record l { timers = xs }) one.2)
          (sym (regroup ts))
      ∙ process_from-settles new_id (processed + one.0) l (before ++ one.1) ts one.2
      ∙ ap (λ xs. (processed + one.0 + rest.0, record l { timers = xs }, rest.2)) (regroup rest.1)
      ∙ ap (λ x. (x, record l { timers = before ++ (one.1 ++ rest.1) }, rest.2)) (omega arith)

  -- Where the callbacks neither read the loop nor ask for a call of it, the walk does to the events,
  -- one after the other from the head of the list, what `settle` says, after their seconds are set to 0
  -- if the clock was set back, and nothing else to the loop but the time of the walk: it ends with what
  -- is left of each in its place.
  pub process_time_events_lem :
      (l : EventLoop) (w : W)
      → let (now, w') = k.time w in
        let zeroed = map (λ (te : TimeEvent). record te { when_sec = 0 }) l.timers in
        let ts = if ltb now l.last_time then zeroed else l.timers in
        let (n, left, w'') = settle q l.next_id ts w' in
        process_time_events l w ≡ (n, record l { last_time = now; timers = left }, w'')
  unfolding process_time_events
  process_time_events_lem l w =
      let (now, w') = k.time w in
      let zeroed = map (λ (te : TimeEvent). record te { when_sec = 0 }) l.timers in
      let ts = if ltb now l.last_time then zeroed else l.timers in
      let r = settle q l.next_id ts w' in
      let l' : EventLoop = record l { last_time = now; timers = r.1 } in
      process_from-settles l.next_id 0 (record l { last_time = now }) [] ts w'
      ∙ ap (λ x. (x, l', r.2)) (omega arith)
