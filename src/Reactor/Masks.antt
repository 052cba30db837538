-- ===== src/Reactor/Masks.antt =====
-- ae.c: file events as a map from descriptors to masks; ae_epoll.c: epoll watches what is registered.
use xteam.Prelude.{
  ℕ, ◌≤◌, ◌≡◌, refl, sym, ap, ◌∙◌, ◌≢◌, ◌↔◌, ◌⊎◌, inl, inr, true, false, ◌&&◌, ◌||◌, Option, none,
  some, arith, leb, ◌==◌, if◌then◌else◌, Bool-cases, get_or-set,
}
use xteam.Reactor.Types.{
  Mask, is_none, mask_or, mask_minus, Status, ok, err, EventLoop, CtlOp, add, mod_, del, Interest,
  Kernel,
}
use xteam.Reactor.Files.{
  blank_event, event, interest, api_add_event, api_del_event, create_file_event, delete_file_event,
  get_file_events, registered, unregistered, removal,
}
use xteam.Reactor.MaxFd.{IsBounded}

module _ {W : Type 0} ⦃k : Kernel W⦄ where
  -- In a bounded loop, registering adds the mask to the descriptor's events, and leaves every other
  -- descriptor alone; where it reports an error, because the descriptor is too large or epoll
  -- refuses, the loop stays as it is.
  pub create_file_event-masks :
      (fd : ℕ) (mask : Mask) (proc data' : ℕ) (l : EventLoop) (w : W)
      → IsBounded l
      → let (st, l', w') = create_file_event fd mask proc data' l w in
        ((st ≡ err) ↔ ((l.setsize ≤ fd) ⊎ ((api_add_event l fd mask w).0 ≡ false)))
        × (st ≡ err → l' ≡ l)
        × (st ≡ ok
            → (x : ℕ)
            → get_file_events l' x
              ≡ (if x == fd then mask_or (get_file_events l fd) mask else get_file_events l x))
  unfolding create_file_event get_file_events
  create_file_event-masks fd mask proc data' l w h =
      let fe = registered mask proc data' (event l fd) in
      (
        (ground arith, ground arith),
        ground arith,
        λ e x. ground (arith, get_or-set l.events fd x fe blank_event),
      )

  -- In a bounded loop, removing takes the mask from the descriptor's events, and AE_BARRIER too
  -- where AE_WRITABLE goes; every other descriptor keeps its events.
  pub delete_file_event-masks :
      (fd : ℕ) (mask : Mask) (l : EventLoop) (w : W)
      → IsBounded l
      → (x : ℕ)
      → get_file_events (delete_file_event fd mask l w).0 x ≡ (
          if x == fd then mask_minus (get_file_events l fd) (removal mask) else get_file_events l x)
  unfolding delete_file_event get_file_events
  delete_file_event-masks fd mask l w h x =
      let fe = unregistered mask (event l fd) in
      ground (arith, get_or-set l.events fd x fe blank_event)

-- What epoll_ctl(2) says of the requests that the loop makes; `watched` is the interest list. The loop has
-- one epoll instance, so that the laws do not tell the descriptors of several apart.
pub record IsEpoll {W : Type 0} (k : Kernel W) (watched : W → ℕ → Option Interest) : Type 0 where
  pub refused :
      (ep : ℕ) (op : CtlOp) (fd : ℕ) (i : Interest) (w : W) (x : ℕ)
      → (k.epoll_ctl ep op fd i w).0 ≡ false
      → watched (k.epoll_ctl ep op fd i w).1 x ≡ watched w x
  pub added :
      (ep fd : ℕ) (i : Interest) (w : W) (x : ℕ)
      → (k.epoll_ctl ep add fd i w).0 ≡ true
      → watched (k.epoll_ctl ep add fd i w).1 x ≡ (if x == fd then some i else watched w x)
  pub modified :
      (ep fd : ℕ) (i : Interest) (w : W) (x : ℕ)
      → watched w fd ≢ none
      → (k.epoll_ctl ep mod_ fd i w).0 ≡ true
      → watched (k.epoll_ctl ep mod_ fd i w).1 x ≡ (if x == fd then some i else watched w x)
  pub deleted :
      (ep fd : ℕ) (i : Interest) (w : W) (x : ℕ)
      → watched w fd ≢ none
      → (k.epoll_ctl ep del fd i w).0 ≡ true
      → watched (k.epoll_ctl ep del fd i w).1 x ≡ (if x == fd then none else watched w x)

-- What epoll should watch a descriptor for.
unfoldable pub wanted : Mask → Option Interest
wanted m = if is_none m then none else some (interest m)

wanted-ne-none : (m : Mask) → is_none m ≡ false → wanted m ≢ none
unfolding wanted
wanted-ne-none m h = ground arith

Status-cases : (s : Status) → (s ≡ ok) ⊎ (s ≡ err)
Status-cases ok = inl refl
Status-cases err = inr refl

mask_or_lem :
    (a b : Mask) → is_none b ≡ false → (mask_or a b ≡ mask_or b a) × (is_none (mask_or a b) ≡ false)
mask_or_lem a b h = ground arith

module _ {W : Type 0} ⦃k : Kernel W⦄ (watched : W → ℕ → Option Interest) where
  -- Epoll watches the descriptors in use, for the events that they are registered for.
  abbrev pub IsSynced : EventLoop → W → Type 0
  IsSynced l w = (fd : ℕ) → watched w fd ≡ wanted (get_file_events l fd)

  api_add_event-watched :
      (fd : ℕ) (mask : Mask) (l : EventLoop) (w : W)
      → IsEpoll k watched
      → is_none mask ≡ false
      → watched w fd ≡ wanted (event l fd).mask
      → let (done, w') = api_add_event l fd mask w in
        (x : ℕ)
        → watched w' x
          ≡ (if done && x == fd then wanted (mask_or (event l fd).mask mask) else watched w x)
  unfolding api_add_event wanted
  api_add_event-watched fd mask l w ep m synced x =
      let old = (event l fd).mask in
      let i = interest (mask_or mask old) in
      elim (Bool-cases (is_none old)) [
        | inl e ↦
            rw (e, api_add_event)
              (ground (
                arith,
                mask_or_lem old mask m,
                ep.refused l.epfd add fd i w x,
                ep.added l.epfd fd i w x,
              ))
        | inr e ↦
            rw (e, api_add_event)
              (ground (
                arith,
                mask_or_lem old mask m,
                ep.refused l.epfd mod_ fd i w x,
                ep.modified l.epfd fd i w x (rw (synced, e) (λ f. cc)),
              ))
      ]

  api_del_event-watched :
      (fd : ℕ) (mask : Mask) (l : EventLoop) (w : W)
      → IsEpoll k watched
      → ((op : CtlOp) (i : Interest) → op ≢ add → (k.epoll_ctl l.epfd op fd i w).0 ≡ true)
      → watched w fd ≢ none
      → (x : ℕ)
      → let left = mask_minus (event l fd).mask mask in
        watched (api_del_event l fd mask w) x ≡ (if x == fd then wanted left else watched w x)
  unfolding api_del_event wanted
  api_del_event-watched fd mask l w ep granted known x =
      let left = mask_minus (event l fd).mask mask in
      let i = interest left in
      elim (Bool-cases (is_none left)) [
        | inl e ↦ rw (e, api_del_event) (ep.deleted l.epfd fd i w x known (granted del i (λ q. cc)))
        | inr e ↦
            rw (e, api_del_event) (ep.modified l.epfd fd i w x known (granted mod_ i (λ q. cc)))
      ]

  get_file_events_below :
      (l : EventLoop) (fd : ℕ) → leb l.setsize fd ≡ false → get_file_events l fd ≡ (event l fd).mask
  unfolding get_file_events
  get_file_events_below l fd e = rw e

  create_file_event_world :
      (fd : ℕ) (mask : Mask) (proc data' : ℕ) (l : EventLoop) (w : W)
      → let (done, w') = api_add_event l fd mask w in
        (create_file_event fd mask proc data' l w).2 ≡ (if leb l.setsize fd then w else w')
  unfolding create_file_event
  create_file_event_world fd mask proc data' l w = ground arith

  -- In a bounded loop, over a kernel that does what epoll_ctl(2) says: registering for some event
  -- keeps epoll and the loop together, whether or not epoll refuses.
  pub create_file_event-IsSynced :
      (fd : ℕ) (mask : Mask) (proc data' : ℕ) (l : EventLoop) (w : W)
      → IsEpoll k watched
      → IsBounded l
      → is_none mask ≡ false
      → IsSynced l w
      → let (st, l', w') = create_file_event fd mask proc data' l w in IsSynced l' w'
  create_file_event-IsSynced fd mask proc data' l w ep h m synced x =
      let (iff, same, masks) = create_file_event-masks fd mask proc data' l w h in
      let world = create_file_event_world fd mask proc data' l w in
      elim (Bool-cases (leb l.setsize fd)) [
        | inl e ↦ ground (arith, synced x, world)
        | inr e ↦
            let below = get_file_events_below l fd e in
            let asked = api_add_event-watched fd mask l w ep m (synced fd ∙ ap wanted below) x in
            elim (Status-cases (create_file_event fd mask proc data' l w).0) [
              | inl good ↦ ground (arith, masks good x, synced x, world, asked, below)
              | inr bad ↦ ground (arith, synced x, world, asked, below)
            ]
      ]

  delete_file_event_world :
      (fd : ℕ) (mask : Mask) (l : EventLoop) (w : W)
      → (delete_file_event fd mask l w).1 ≡ (
          if leb l.setsize fd || is_none (event l fd).mask
          then w
          else api_del_event l fd (removal mask) w)
  unfolding delete_file_event
  delete_file_event_world fd mask l w = ground arith

  delete_file_event_same :
      (fd : ℕ) (mask : Mask) (l : EventLoop) (w : W)
      → (leb l.setsize fd || is_none (event l fd).mask) ≡ true
      → (delete_file_event fd mask l w).0 ≡ l
  unfolding delete_file_event
  delete_file_event_same fd mask l w e = ground arith

  -- In a bounded loop, over such a kernel that does not refuse to change or delete the entry of the
  -- descriptor, removing keeps them together.
  pub delete_file_event-IsSynced :
      (fd : ℕ) (mask : Mask) (l : EventLoop) (w : W)
      → IsEpoll k watched
      → ((op : CtlOp) (i : Interest) → op ≢ add → (k.epoll_ctl l.epfd op fd i w).0 ≡ true)
      → IsBounded l
      → IsSynced l w
      → let (l', w') = delete_file_event fd mask l w in IsSynced l' w'
  delete_file_event-IsSynced fd mask l w ep granted h synced x =
      let world = delete_file_event_world fd mask l w in
      let masks = delete_file_event-masks fd mask l w h x in
      let m = (event l fd).mask in
      elim (Bool-cases (leb l.setsize fd)) [
        | inl e ↦ ground (arith, synced x, world, delete_file_event_same fd mask l w)
        | inr e ↦ elim (Bool-cases (is_none m)) [
          | inl f ↦ ground (arith, synced x, world, delete_file_event_same fd mask l w (rw (e, f)))
          | inr f ↦
              let below = get_file_events_below l fd e in
              let known : watched w fd ≢ none =
                λ q. wanted-ne-none m f (sym (synced fd ∙ ap wanted below) ∙ q) in
              let asked = api_del_event-watched fd (removal mask) l w ep granted known x in
              ground (arith, synced x, world, asked, masks, below)
        ]
      ]
