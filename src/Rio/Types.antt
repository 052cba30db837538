-- ===== src/Rio/Types.antt =====
-- csapp.h: `rio_t`; what the package asks of the system.
use xteam.Prelude.{ℕ, List}

abbrev pub Bytes : Type 0
Bytes = List ℕ

-- What `read` and `write` answer: a count with the bytes that it stands for, EINTR, or another error.
pub data ReadAnswer : Type 0 where
  got : Bytes → ReadAnswer
  read_interrupted read_failed : ReadAnswer

pub data WriteAnswer : Type 0 where
  put : ℕ → WriteAnswer
  write_interrupted write_failed : WriteAnswer

-- The system calls on one descriptor, over a state `W` of what lies behind it.
pub record Descriptor (W : Type 0) : Type 0 where
  pub read : ℕ → W → ReadAnswer × W
  pub write : Bytes → W → WriteAnswer × W

-- What the functions return: the bytes read, or -1.
pub data Result : Type 0 where
  done : Bytes → Result
  error : Result

-- `rio_t`: the bytes from `rio_bufptr` on that are not yet read, `rio_cnt` of them.
pub record Rio : Type 0 where
  pub unread : Bytes
