-- ===== src/Reactor/Dispatch.antt =====
-- ae.c, `aeProcessEvents`: in which order the procedures of one descriptor are called, and how often.
use xteam.Prelude.{ℕ, ◌≡◌, true, false, arith, ◌==◌, if◌then◌else◌}
use xteam.Reactor.Types.{Mask, FileEvent, EventLoop, Kernel, is_none}
use xteam.Reactor.Files.{event}
use xteam.Reactor.Callbacks.{Callbacks}
use xteam.Reactor.Process.{call_file, call_readable, call_writable, dispatch}

-- The procedure to call first, and the other one.
unfoldable pub first_proc : FileEvent → ℕ
first_proc fe = if fe.mask.barrier then fe.wfile_proc else fe.rfile_proc

unfoldable pub second_proc : FileEvent → ℕ
second_proc fe = if fe.mask.barrier then fe.rfile_proc else fe.wfile_proc

abbrev pub only_read : Mask
only_read = record { readable = true; writable = false; barrier = false }

abbrev pub only_write : Mask
only_write = record { readable = false; writable = true; barrier = false }

module _ {W : Type 0} ⦃k : Kernel W⦄ ⦃c : Callbacks W⦄ where
  -- The first call for the descriptor `fd`.
  unfoldable pub first_call : ℕ → Mask → EventLoop → W → EventLoop × W
  unfolding first_proc
  first_call fd mask l w = call_file (first_proc (event l fd)) fd (event l fd).client_data mask l w

  -- Where a descriptor is registered for both events and both fired, and the first procedure leaves
  -- the slot as it was, the second is called after it, with the slot's data: the readable one first,
  -- or, under AE_BARRIER, the writable one. A procedure that serves both events is called only once.
  pub dispatch_order :
      (fd : ℕ) (mask : Mask) (l : EventLoop) (w : W)
      → (event l fd).mask.readable ≡ true
      → (event l fd).mask.writable ≡ true
      → mask.readable ≡ true
      → mask.writable ≡ true
      → event (first_call fd mask l w).0 fd ≡ event l fd
      → let fe = event l fd in
        let (l', w') = first_call fd mask l w in
        dispatch fd mask l w ≡ (
          if fe.wfile_proc == fe.rfile_proc
          then (l', w')
          else call_file (second_proc fe) fd fe.client_data mask l' w')
  unfolding dispatch call_readable call_writable first_call first_proc second_proc
  dispatch_order fd mask l w sr sw mr mw same = ground arith

  -- Where both events are registered and fired, and the first procedure takes all events of the slot
  -- away, the second procedure is not called.
  pub dispatch_removed :
      (fd : ℕ) (mask : Mask) (l : EventLoop) (w : W)
      → (event l fd).mask.readable ≡ true
      → (event l fd).mask.writable ≡ true
      → mask.readable ≡ true
      → mask.writable ≡ true
      → is_none (event (first_call fd mask l w).0 fd).mask ≡ true
      → dispatch fd mask l w ≡ first_call fd mask l w
  unfolding dispatch call_readable call_writable first_call first_proc
  dispatch_removed fd mask l w sr sw mr mw gone = ground arith

  -- Where only one kind of event fired, its procedure is called once if the slot asks for it, and
  -- else nothing is done.
  pub dispatch_single :
      (fd : ℕ) (l : EventLoop) (w : W)
      → let fe = event l fd in
        (dispatch fd only_read l w ≡ (
          if fe.mask.readable
          then call_file fe.rfile_proc fd fe.client_data only_read l w
          else (l, w)))
        × (dispatch fd only_write l w ≡ (
            if fe.mask.writable
            then call_file fe.wfile_proc fd fe.client_data only_write l w
            else (l, w)))
  unfolding dispatch call_readable call_writable
  dispatch_single fd l w = ground arith
