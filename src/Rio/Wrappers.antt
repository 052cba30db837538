-- ===== src/Rio/Wrappers.antt =====
-- csapp.c: `Rio_readn`, `Rio_writen`, `Rio_readnb`, `Rio_readlineb`: an error ends the process.
use xteam.Prelude.{ℕ, ◌-◌, Option, none, some}
use xteam.Rio.Types.{Bytes, Descriptor, Result, done, error, Rio}
use xteam.Rio.Io.{readn, writen, readnb, readlineb}

-- What a wrapper comes to: it returns, or `unix_error` ends the process.
pub data Outcome (S : Type 0) : Type 0 where
  returned : Bytes → S → Outcome S
  exited : Outcome S

unfoldable pub or_exit : {S : Type 0} → Option (Result × S) → Option (Outcome S)
or_exit none = none
or_exit (some (error, w)) = some exited
or_exit (some (done bs, w)) = some (returned bs w)

module _ {W : Type 0} ⦃d : Descriptor W⦄ where
  unfoldable pub readn_or_exit : ℕ → ℕ → W → Option (Outcome W)
  unfolding readn or_exit
  readn_or_exit fuel n w = or_exit (readn fuel n w)

  unfoldable pub writen_or_exit : ℕ → Bytes → W → Option (Outcome W)
  unfolding writen or_exit
  writen_or_exit fuel buf w = or_exit (writen fuel buf w)

  unfoldable pub readnb_or_exit : ℕ → ℕ → Rio → W → Option (Outcome (Rio × W))
  unfolding readnb or_exit
  readnb_or_exit fuel n rp w = or_exit (readnb fuel fuel n rp w)

  unfoldable pub readlineb_or_exit : ℕ → ℕ → Rio → W → Option (Outcome (ℕ × Rio × W))
  unfolding readlineb or_exit
  readlineb_or_exit fuel maxlen rp w = or_exit (readlineb fuel (maxlen - 1) 1 rp w)
