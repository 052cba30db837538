-- ===== src/Reactor/Wait.antt =====
-- ae.c: `aeWait`, which waits for one descriptor without the loop, and `aeGetSetSize`.
use xteam.Prelude.{ℕ}
use xteam.Reactor.Types.{Mask, Interest, Ready, EventLoop}
use xteam.Reactor.Files.{interest}
use xteam.Reactor.Process.{ready_mask}

-- What `poll` answers for one descriptor: 1 with its events, 0, or -1.
pub data PollAnswer : Type 0 where
  answered : Ready → PollAnswer
  timed_out poll_failed : PollAnswer

-- The mask that is returned, or 0, or -1.
pub data WaitResult : Type 0 where
  happened : Mask → WaitResult
  nothing failed : WaitResult

-- `aeWait`. The system call takes the descriptor, what to wait for, and the milliseconds.
unfoldable pub wait :
    {W : Type 0} → (ℕ → Interest → ℕ → W → PollAnswer × W) → ℕ → Mask → ℕ → W → WaitResult × W
unfolding ready_mask
wait poll fd mask milliseconds w =
    let (answer, w') = poll fd (interest mask) milliseconds w in
    elim answer [
      | answered r ↦ (happened (ready_mask r), w')
      | timed_out ↦ (nothing, w')
      | poll_failed ↦ (failed, w')
    ]

-- `aeGetSetSize`
unfoldable pub get_set_size : EventLoop → ℕ
get_set_size l = l.setsize
