-- ===== src/Reactor/MaxFd.antt =====
-- ae.c: `maxfd` bounds the descriptors in use, and is the greatest of them.
use native.Mathlib.Decide.{ℕ_discrete}
use xteam.Prelude.{
  ℕ, zero, suc, ◌-◌, ◌≤◌, ◌<◌, ◌≡◌, refl, ◌⊎◌, inl, inr, true, false, List, arith, Bool-cases,
  length, get_or, set, length-set, get_or-set,
}
use xteam.Reactor.Types.{Mask, is_none, FileEvent, EventLoop, Kernel}
use xteam.Reactor.Files.{
  blank_event, event, last_used, create_file_event, delete_file_event, registered, unregistered,
}

-- No slot from `fd_bound` on is in use, and there is a slot for every descriptor below `setsize`.
pub record IsBounded (l : EventLoop) : Type 0 where
  pub sized : length l.events ≡ l.setsize
  pub within : l.fd_bound ≤ l.setsize
  pub unused : (fd : ℕ) → l.fd_bound ≤ fd → is_none (event l fd).mask ≡ true

-- `maxfd` is -1 or in use.
abbrev pub IsTight : EventLoop → Type 0
IsTight l = (l.fd_bound ≡ 0) ⊎ (is_none (event l (l.fd_bound - 1)).mask ≡ false)

last_used_lem :
    (es : List FileEvent) (n : ℕ)
    → (last_used es n ≤ n)
      × ((last_used es n ≡ 0) ⊎ (is_none (get_or es (last_used es n - 1) blank_event).mask ≡ false))
unfolding last_used
last_used_lem es zero = (omega arith, inl refl)
last_used_lem es (suc j) = ground (arith, last_used_lem es j)

last_used_unused :
    (es : List FileEvent) (n fd : ℕ)
    → last_used es n ≤ fd
    → fd < n
    → is_none (get_or es fd blank_event).mask ≡ true
unfolding last_used
last_used_unused es zero fd h k = absurd (omega arith)
last_used_unused es (suc j) fd h k = elim (Bool-cases (is_none (get_or es j blank_event).mask)) [
  | inl e ↦ elim (ℕ_discrete fd j) [
    | yes q ↦ rw q e
    | no ne ↦ last_used_unused es j fd (ground arith) (omega arith)
  ]
  | inr e ↦ absurd (ground arith)
]

module _ {W : Type 0} ⦃k : Kernel W⦄ where
  -- Registering keeps the bound, for any mask.
  pub create_file_event-IsBounded :
      (fd : ℕ) (mask : Mask) (proc data' : ℕ) (l : EventLoop) (w : W)
      → IsBounded l
      → IsBounded (create_file_event fd mask proc data' l w).1
  unfolding create_file_event
  create_file_event-IsBounded fd mask proc data' l w h =
      let fe = registered mask proc data' (event l fd) in
      record {
        sized = ground (arith, length-set l.events fd fe);
        within = ground arith;
        unused = λ x lt. ground (arith, get_or-set l.events fd x fe blank_event, h.unused x);
      }

  -- In a bounded loop whose `maxfd` is -1 or in use, registering for some event leaves it in use.
  pub create_file_event-IsTight :
      (fd : ℕ) (mask : Mask) (proc data' : ℕ) (l : EventLoop) (w : W)
      → is_none mask ≡ false
      → IsBounded l
      → IsTight l
      → IsTight (create_file_event fd mask proc data' l w).1
  unfolding create_file_event
  create_file_event-IsTight fd mask proc data' l w m h t =
      let fe = registered mask proc data' (event l fd) in
      ground (
        arith,
        get_or-set l.events fd fd fe blank_event,
        get_or-set l.events fd (l.fd_bound - 1) fe blank_event,
      )

  -- Removing keeps both, for any mask.
  pub delete_file_event-IsBounded :
      (fd : ℕ) (mask : Mask) (l : EventLoop) (w : W)
      → IsBounded l
      → IsBounded (delete_file_event fd mask l w).0
  unfolding delete_file_event
  delete_file_event-IsBounded fd mask l w h =
      let fe = unregistered mask (event l fd) in
      let es = set l.events fd fe in
      record {
        sized = ground (arith, length-set l.events fd fe);
        within = ground (arith, last_used_lem es (l.fd_bound - 1));
        unused = λ x lt. ground (
          arith,
          get_or-set l.events fd x fe blank_event,
          h.unused x,
          last_used_unused es (l.fd_bound - 1) x,
        );
      }

  -- In a bounded loop whose `maxfd` is -1 or in use, removing any events leaves it so.
  pub delete_file_event-IsTight :
      (fd : ℕ) (mask : Mask) (l : EventLoop) (w : W)
      → IsBounded l
      → IsTight l
      → IsTight (delete_file_event fd mask l w).0
  unfolding delete_file_event
  delete_file_event-IsTight fd mask l w h t =
      let fe = unregistered mask (event l fd) in
      let es = set l.events fd fe in
      ground (
        arith,
        get_or-set l.events fd (l.fd_bound - 1) fe blank_event,
        last_used_lem es (l.fd_bound - 1),
      )
