-- ===== src/Reactor/Rewrites.antt =====
-- ae.c: what the loop's own writes do to the ids of timers and to the room for fired events.
use xteam.Prelude.{ℕ, ◌+◌, ◌≤◌, ◌≡◌, refl, ◌∙◌, none, List, [], ◌∷◌, map, arith, length, length-set}
use xteam.Reactor.Types.{TimeEvent, FiredEvent, Ready}
use xteam.Reactor.Due.{change_position, remove_position}
use xteam.Reactor.Process.{ready_mask, write_fired}
use xteam.Reactor.TimerIds.{with_id}

pub with_id-remove :
    (i pos : ℕ) (ts : List TimeEvent) → with_id i (remove_position pos ts) ≤ with_id i ts
unfolding remove_position
with_id-remove i pos [] = omega arith
with_id-remove i pos (te ∷ ts) = ground (arith, with_id-remove i pos ts)

pub with_id-retire :
    (i pos : ℕ) (ts : List TimeEvent)
    → with_id i (change_position pos (λ t. record t { id = none }) ts) ≤ with_id i ts
unfolding change_position
with_id-retire i pos [] = omega arith
with_id-retire i pos (te ∷ ts) = ground (arith, with_id-retire i pos ts)

pub with_id-put_off :
    (i pos sec ms : ℕ) (ts : List TimeEvent)
    → with_id i (change_position pos (λ t. record t { when_sec = sec; when_ms = ms }) ts)
      ≤ with_id i ts
unfolding change_position
with_id-put_off i pos sec ms [] = omega arith
with_id-put_off i pos sec ms (te ∷ ts) = ground (arith, with_id-put_off i pos sec ms ts)

pub with_id-zeroed :
    (i : ℕ) (ts : List TimeEvent)
    → with_id i (map (λ (te : TimeEvent). record te { when_sec = 0 }) ts) ≤ with_id i ts
with_id-zeroed i [] = omega arith
with_id-zeroed i (te ∷ ts) = ground (arith, with_id-zeroed i ts)

pub length-write_fired :
    (j : ℕ) (rs : List Ready) (fs : List FiredEvent) → length (write_fired j rs fs) ≡ length fs
unfolding write_fired
length-write_fired j [] fs = refl
length-write_fired j (r ∷ rs) fs =
    length-write_fired (j + 1) rs _ ∙ length-set fs j (record { fd = r.fd; mask = ready_mask r })
