-- ===== src/Reactor/Resize.antt =====
-- ae.c: `aeCreateEventLoop` and `aeResizeSetSize`.
use xteam.Prelude.{
  ℕ, zero, suc, ◌+◌, ◌-◌, ◌≤◌, ◌<◌, ◌≡◌, refl, ap, ◌∙◌, ◌↔◌, inl, inr, true, some, List, [], ◌∷◌,
  arith, ◌==◌, Bool-cases, length, get_or, set, length-set, get_or-set, get_or_end,
}
use xteam.Reactor.Types.{
  Mask, is_none, no_events, ok, err, FileEvent, FiredEvent, EventLoop, Kernel,
}
use xteam.Reactor.Files.{
  blank_event, event, realloc, clear_masks, create_event_loop, resize_set_size, get_file_events,
}
use xteam.Reactor.MaxFd.{IsBounded, IsTight}

length-realloc {ℓ} : {A : Type ℓ} (junk : A) (n : ℕ) (xs : List A) → length (realloc junk n xs) ≡ n
unfolding realloc
length-realloc junk zero xs = refl
length-realloc junk (suc n) [] = ap suc (length-realloc junk n [])
length-realloc junk (suc n) (x ∷ xs) = ap suc (length-realloc junk n xs)

get_or-realloc {ℓ} :
    {A : Type ℓ} (junk : A) (n i : ℕ) (xs : List A) (d : A)
    → i < n
    → i < length xs
    → get_or (realloc junk n xs) i d ≡ get_or xs i d
unfolding realloc
get_or-realloc junk zero i xs d h k = absurd (omega arith)
get_or-realloc junk (suc n) i [] d h k = absurd (omega arith)
get_or-realloc junk (suc n) zero (x ∷ xs) d h k = refl
get_or-realloc junk (suc n) (suc i) (x ∷ xs) d h k =
    get_or-realloc junk n i xs d (omega arith) (omega arith)

length-clear_masks : (n i : ℕ) (es : List FileEvent) → length (clear_masks n i es) ≡ length es
unfolding clear_masks
length-clear_masks zero i es = refl
length-clear_masks (suc n) i es =
    length-clear_masks n (i + 1) _
    ∙ length-set es i (record (get_or es i blank_event) { mask = no_events })

-- The slots before those that the loop clears stay as they are.
clear_masks_before :
    (n i j : ℕ) (es : List FileEvent)
    → j < i
    → get_or (clear_masks n i es) j blank_event ≡ get_or es j blank_event
unfolding clear_masks
clear_masks_before zero i j es h = refl
clear_masks_before (suc n) i j es h =
    let fe = record (get_or es i blank_event) { mask = no_events } in
    ground (arith, clear_masks_before n (i + 1) j (set es i fe), get_or-set es i j fe blank_event)

-- Those that it clears, and those past the end of the array, are not in use.
clear_masks_after :
    (n i j : ℕ) (es : List FileEvent)
    → i ≤ j
    → length es ≤ i + n
    → is_none (get_or (clear_masks n i es) j blank_event).mask ≡ true
unfolding clear_masks
clear_masks_after zero i j es h k = rw (get_or_end es j blank_event (omega arith))
clear_masks_after (suc n) i j es h k =
    let fe = record (get_or es i blank_event) { mask = no_events } in
    elim (Bool-cases (i == j)) [
      | inl e ↦ ground (
        arith,
        clear_masks_before n (i + 1) j (set es i fe),
        get_or-set es i j fe blank_event,
        get_or_end es j blank_event,
      )
      | inr ne ↦
          clear_masks_after n (i + 1) j (set es i fe) (ground arith)
            (omega (arith, length-set es i fe))
    ]

none-eq : (m : Mask) → is_none m ≡ true → m ≡ no_events
none-eq m h = ground arith

-- A loop that is created has the size asked for and is bounded, its `maxfd` is -1 or in use, it has
-- room for as many fired events, and no descriptor is in use.
pub create_event_loop-IsBounded :
    {W : Type 0} ⦃k : Kernel W⦄ (junk : FileEvent) (junk' : FiredEvent) (setsize : ℕ) (w : W)
    (l : EventLoop)
    → (create_event_loop junk junk' setsize w).0 ≡ some l
    → IsBounded l
      × IsTight l
      × (l.setsize ≡ setsize)
      × (length l.fired ≡ setsize)
      × ((fd : ℕ) → get_file_events l fd ≡ no_events)
unfolding create_event_loop get_file_events
create_event_loop-IsBounded junk junk' setsize w l h =
    let es = realloc junk setsize [] in
    let cleared = λ (fd : ℕ).
      clear_masks_after setsize 0 fd es (omega arith)
        (omega (arith, length-realloc junk setsize [])) in
    let masks = clear_masks setsize 0 es in
    let sized = length-clear_masks setsize 0 es ∙ length-realloc junk setsize [] in
    (
      record {
        sized = ground (arith, sized);
        within = ground arith;
        unused = λ fd lt. ground (arith, cleared fd);
      },
      ground arith,
      ground arith,
      ground (arith, length-realloc junk' setsize []),
      λ fd. ground (arith, cleared fd, none-eq (get_or masks fd blank_event).mask),
    )

-- In a bounded loop, resizing is refused exactly where a descriptor from the new size on may be in
-- use; then the loop stays as it is. Otherwise the loop has the new size, is bounded if it was, and
-- every descriptor has the events that it had.
pub resize_set_size_lem :
    (junk : FileEvent) (junk' : FiredEvent) (setsize : ℕ) (l : EventLoop)
    → IsBounded l
    → let (st, l') = resize_set_size junk junk' setsize l in
      ((st ≡ err) ↔ (setsize < l.fd_bound))
      × (st ≡ err → l' ≡ l)
      × (st ≡ ok → (l'.setsize ≡ setsize) × (l'.fd_bound ≡ l.fd_bound))
      × IsBounded l'
      × ((fd : ℕ) → get_file_events l' fd ≡ get_file_events l fd)
unfolding resize_set_size get_file_events
resize_set_size_lem junk junk' setsize l h =
    let n = setsize - l.fd_bound in
    let es = realloc junk setsize l.events in
    let masks = clear_masks n l.fd_bound es in
    let size = length-realloc junk setsize l.events in
    (
      ground arith,
      ground arith,
      ground arith,
      record {
        sized = ground (arith, length-clear_masks n l.fd_bound es, size);
        within = ground arith;
        unused = λ fd lt. ground (arith, clear_masks_after n l.fd_bound fd es, size, h.unused fd);
      },
      λ fd. ground (
        arith,
        clear_masks_after n l.fd_bound fd es,
        clear_masks_before n l.fd_bound fd es,
        get_or-realloc junk setsize fd l.events blank_event,
        size,
        h.unused fd,
        none-eq (event l fd).mask,
        none-eq (get_or masks fd blank_event).mask,
      ),
    )
