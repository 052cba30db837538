-- ===== src/Reactor/Nearest.antt =====
-- ae.c: the nearest timer, and how long the loop waits for it.
use mathlib.Core.Path.{subst}
use mathlib.Core.Option.{some-injective}
use xteam.Prelude.{
  ℕ, ◌+◌, ◌*◌, ◌/◌, ◌≤◌, ◌<◌, ◌≡◌, refl, sym, ◌∙◌, ◌↔◌, ◌⊎◌, inl, inr, true, false, none, some,
  List, [], ◌∷◌, arith, Bool-cases, All,
}
use xteam.Reactor.Types.{TimeEvent, EventLoop, Kernel}
use xteam.Reactor.Timers.{
  earlier, get_time, add_milliseconds_to_now, nearest_from, search_nearest_timer,
}
use xteam.Reactor.Process.{time_until}

-- An event of the list that passes `P`.
abbrev pub Holds : (TimeEvent → Type 0) → List TimeEvent → Type 0
Holds P [] = ⊥
Holds P (te ∷ ts) = P te ⊎ Holds P ts

not_earlier :
    (a b n : TimeEvent)
    → (earlier b a ≡ true) ⊎ (earlier a b ≡ false)
    → earlier b n ≡ false
    → earlier a n ≡ false
not_earlier a b n h k = ground arith

nearest_from_lem :
    (ts : List TimeEvent) (b : TimeEvent)
    → (n : TimeEvent) × (nearest_from (some b) ts ≡ some n)
      × (earlier b n ≡ false)
      × All (λ te. earlier te n ≡ false) ts
      × ((n ≡ b) ⊎ Holds (λ te. n ≡ te) ts)
unfolding nearest_from
nearest_from_lem [] b = (b, refl, ground arith, tt, inl refl)
nearest_from_lem (te ∷ ts) b = elim (Bool-cases (earlier te b)) [
  | inl e ↦
      let (n, found, first, rest, who) = nearest_from_lem ts te in
      (
        n,
        rw (e, nearest_from) found,
        not_earlier b te n (inl e) first,
        (first, rest),
        elim who [ inl q ↦ inr (inl q) | inr q ↦ inr (inr q) ],
      )
  | inr e ↦
      let (n, found, first, rest, who) = nearest_from_lem ts b in
      (
        n,
        rw (e, nearest_from) found,
        first,
        (not_earlier te b n (inr e) first, rest),
        elim who [ inl q ↦ inl q | inr q ↦ inr (inr q) ],
      )
]

-- The search finds no timer exactly where there is none; what it finds is an event of the list, and
-- no event of the list is due before it.
pub search_nearest_timer_lem :
    (l : EventLoop)
    → ((search_nearest_timer l ≡ none) ↔ (l.timers ≡ []))
      × ((n : TimeEvent)
          → search_nearest_timer l ≡ some n
          → All (λ te. earlier te n ≡ false) l.timers × Holds (λ te. n ≡ te) l.timers)
unfolding search_nearest_timer
search_nearest_timer_lem l = go l.timers
  where
    go :
        (ts : List TimeEvent)
        → ((nearest_from none ts ≡ none) ↔ (ts ≡ []))
          × ((n : TimeEvent)
              → nearest_from none ts ≡ some n
              → All (λ te. earlier te n ≡ false) ts × Holds (λ te. n ≡ te) ts)
    go [] = (((λ _. refl), (λ _. refl)), (λ n e. cc))
    go (te ∷ ts) =
        let (n, found, first, rest, who) = nearest_from_lem ts te in
        (
          ((λ e. cc), (λ e. cc)),
          λ m e.
              subst (λ x. All (λ t. earlier t x ≡ false) (te ∷ ts) × Holds (λ t. x ≡ t) (te ∷ ts))
                (some-injective _ _ (sym found ∙ e)) ((first, rest), who),
        )

-- The milliseconds of a point in time.
abbrev pub total_ms : ℕ → ℕ → ℕ
total_ms sec ms = sec * 1000 + ms

module _ {W : Type 0} ⦃k : Kernel W⦄ where
  -- Where the clock gives microseconds below a second, a delay is added to the time that the clock
  -- shows, and the milliseconds stay below a second.
  pub add_milliseconds_to_now_lem :
      (milliseconds : ℕ) (w : W)
      → (k.gettimeofday w).1 < 1000000
      → let (now_sec, now_ms, w1) = get_time w in
        let (sec, ms, w2) = add_milliseconds_to_now milliseconds w in
        (total_ms sec ms ≡ total_ms now_sec now_ms + milliseconds) × (ms < 1000) × (w2 ≡ w1)
  unfolding add_milliseconds_to_now
  add_milliseconds_to_now_lem milliseconds w h = ground arith

-- The timeout, as `aeApiPoll` reads it in milliseconds, ends when the event is due, and is 0 where
-- the event is past.
pub time_until_lem :
    (te : TimeEvent) (now_sec now_ms : ℕ)
    → let tv = time_until te now_sec now_ms in
      let timeout = tv.tv_sec * 1000 + tv.tv_usec / 1000 in
      (tv.tv_usec < 1000000)
      × (total_ms now_sec now_ms ≤ total_ms te.when_sec te.when_ms
          → total_ms now_sec now_ms + timeout ≡ total_ms te.when_sec te.when_ms)
      × (total_ms te.when_sec te.when_ms ≤ total_ms now_sec now_ms → timeout ≡ 0)
unfolding time_until
time_until_lem te now_sec now_ms = ground arith
