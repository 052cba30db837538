-- ===== src/Reactor.antt =====
-- 网络编程/aeReactor/cversion: the event loop of ae.c over ae_epoll.c.
-- `Types` has the structures and what lies outside: the kernel and the callbacks. `Files` registers
-- file events, `Timers` time events, `Due` processes time events, `Process` is one turn of the loop.
pub mod Types
pub mod Files
pub mod Timers
pub mod Callbacks
pub mod Due
pub mod Process
pub mod Wait
pub mod MaxFd
pub mod Resize
pub mod Masks
pub mod TimerIds
pub mod Nearest
pub mod Rewrites
pub mod Kept
pub mod Positions
pub mod Walk
pub mod Dispatch
pub mod Safety
mod Sample
mod Tests
