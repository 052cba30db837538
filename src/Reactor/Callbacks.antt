-- ===== src/Reactor/Callbacks.antt =====
-- The callbacks that ae.h has pointers to. What one does is a parameter: it sees the loop and the
-- world outside, and asks for calls of the loop's public functions, which are then made in order.
-- A callback that runs the loop again, resizes it or frees it is not modelled.
use xteam.Prelude.{ℕ, true, Option, List, [], ◌∷◌}
use xteam.Reactor.Types.{Mask, EventLoop, Kernel}
use xteam.Reactor.Files.{create_file_event, delete_file_event}
use xteam.Reactor.Timers.{create_time_event, delete_time_event}

pub data Action : Type 0 where
  create_file : (fd : ℕ) (mask : Mask) (proc data' : ℕ) → Action
  delete_file : (fd : ℕ) (mask : Mask) → Action
  create_time : (milliseconds proc data' : ℕ) (finalizer : Option ℕ) → Action
  delete_time : (id : ℕ) → Action
  stop : Action

pub record Callbacks (W : Type 0) : Type 0 where
  -- the procedure, the loop, the descriptor, the client's data and the mask
  pub file_proc : ℕ → EventLoop → ℕ → ℕ → Mask → W → List Action × W
  -- the procedure, the loop, the id and the client's data; `none` is AE_NOMORE
  pub time_proc : ℕ → EventLoop → ℕ → ℕ → W → Option ℕ × List Action × W
  pub finalizer_proc : ℕ → EventLoop → ℕ → W → List Action × W
  pub sleep_proc : ℕ → EventLoop → W → List Action × W

module _ {W : Type 0} ⦃k : Kernel W⦄ where
  -- `aeStop` is the last case.
  unfoldable pub perform : Action → EventLoop → W → EventLoop × W
  unfolding create_file_event delete_file_event create_time_event delete_time_event
  perform (create_file fd mask proc data') l w =
      let (st, l', w') = create_file_event fd mask proc data' l w in (l', w')
  perform (delete_file fd mask) l w = delete_file_event fd mask l w
  perform (create_time milliseconds proc data' finalizer) l w =
      let (id, l', w') = create_time_event milliseconds proc data' finalizer l w in (l', w')
  perform (delete_time id) l w = ((delete_time_event id l).1, w)
  perform stop l w = (record l { stop = true }, w)

  unfoldable pub perform_all : List Action → EventLoop → W → EventLoop × W
  unfolding perform
  perform_all [] l w = (l, w)
  perform_all (a ∷ as') l w = let (l', w') = perform a l w in perform_all as' l' w'

-- `aeSetBeforeSleepProc` and `aeSetAfterSleepProc`
unfoldable pub set_before_sleep_proc : Option ℕ → EventLoop → EventLoop
set_before_sleep_proc proc l = record l { before_sleep = proc }

unfoldable pub set_after_sleep_proc : Option ℕ → EventLoop → EventLoop
set_after_sleep_proc proc l = record l { after_sleep = proc }
