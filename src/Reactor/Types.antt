-- ===== src/Reactor/Types.antt =====
-- ae.h: the structures of the event loop; ae_epoll.c: what it asks of the kernel.
use xteam.Prelude.{ℕ, Bool, false, not, ◌&&◌, ◌||◌, Option, List}

-- The int masks, by their bits AE_READABLE, AE_WRITABLE and AE_BARRIER.
pub record Mask : Type 0 where
  pub readable : Bool
  pub writable : Bool
  pub barrier : Bool

-- `m == AE_NONE`
abbrev pub is_none : Mask → Bool
is_none m = not (m.readable || (m.writable || m.barrier))

abbrev pub no_events : Mask
no_events = record { readable = false; writable = false; barrier = false }

-- `a | b`
abbrev pub mask_or : Mask → Mask → Mask
mask_or a b = record {
  readable = a.readable || b.readable;
  writable = a.writable || b.writable;
  barrier = a.barrier || b.barrier;
}

-- `a & (~b)`
abbrev pub mask_minus : Mask → Mask → Mask
mask_minus a b = record {
  readable = a.readable && not b.readable;
  writable = a.writable && not b.writable;
  barrier = a.barrier && not b.barrier;
}

-- AE_OK and AE_ERR
pub data Status : Type 0 where
  ok err : Status

-- A callback is named by a number, as by its address, and so are the client's data.
pub record FileEvent : Type 0 where
  pub mask : Mask
  pub rfile_proc : ℕ
  pub wfile_proc : ℕ
  pub client_data : ℕ

-- `id` is `none` for AE_DELETED_EVENT_ID. The links are those of the list that holds the event.
pub record TimeEvent : Type 0 where
  pub id : Option ℕ
  pub when_sec : ℕ
  pub when_ms : ℕ
  pub time_proc : ℕ
  pub finalizer_proc : Option ℕ
  pub client_data : ℕ

pub record FiredEvent : Type 0 where
  pub fd : ℕ
  pub mask : Mask

-- `aeEventLoop`. `fd_bound` is `maxfd + 1`, so that it is 0 where `maxfd` is -1; `timers` is the list
-- from `timeEventHead` on; `epfd` is what is used of `apidata`.
pub record EventLoop : Type 0 where
  pub fd_bound : ℕ
  pub setsize : ℕ
  pub next_id : ℕ
  pub last_time : ℕ
  pub events : List FileEvent
  pub fired : List FiredEvent
  pub timers : List TimeEvent
  pub stop : Bool
  pub epfd : ℕ
  pub before_sleep : Option ℕ
  pub after_sleep : Option ℕ

pub data CtlOp : Type 0 where
  add mod_ del : CtlOp

-- EPOLLIN and EPOLLOUT of a request.
pub record Interest : Type 0 where
  pub pollin : Bool
  pub pollout : Bool

-- An event that `epoll_wait` reports.
pub record Ready : Type 0 where
  pub fd : ℕ
  pub pollin : Bool
  pub pollout : Bool
  pub pollerr : Bool
  pub pollhup : Bool

-- The system calls, over a state `W` of all that is outside the loop.
pub record Kernel (W : Type 0) : Type 0 where
  pub epoll_create : W → Option ℕ × W
  -- true where the call succeeds
  pub epoll_ctl : ℕ → CtlOp → ℕ → Interest → W → Bool × W
  -- the descriptor, the room for events and the timeout in milliseconds (`none` for -1)
  pub epoll_wait : ℕ → ℕ → Option ℕ → W → List Ready × W
  -- seconds and microseconds
  pub gettimeofday : W → ℕ × ℕ × W
  pub time : W → ℕ × W
