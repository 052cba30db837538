-- ===== src/Rio/Io.antt =====
-- csapp.c: `rio_readn`, `rio_writen`, `rio_read`, `rio_readinitb`, `rio_readnb`, `rio_readlineb`.
-- Each loop runs on fuel, one unit for each round, and is `none` while it is still running.
use xteam.Prelude.{
  ℕ, zero, suc, ◌+◌, ◌-◌, Option, none, some, [], ◌∷◌, ◌++◌, ◌==◌, if◌then◌else◌, length, take,
}
use xteam.Rio.Types.{
  Bytes, got, read_interrupted, read_failed, put, write_interrupted, write_failed, Descriptor,
  Result, done, error, Rio,
}

unfoldable pub drop : ℕ → Bytes → Bytes
drop zero s = s
drop (suc n) [] = []
drop (suc n) (x ∷ s) = drop n s

-- The bytes of one round in front of those of the later ones.
unfoldable pub prepend : {S : Type 0} → Bytes → Option (Result × S) → Option (Result × S)
prepend bs none = none
prepend bs (some (error, w)) = some (error, w)
prepend bs (some (done later, w)) = some (done (bs ++ later), w)

-- `rio_readinitb`
unfoldable pub readinitb : Rio
readinitb = record { unread = [] }

module _ {W : Type 0} ⦃d : Descriptor W⦄ where
  -- `rio_readn`, with `nleft` bytes still to read.
  unfoldable pub readn : ℕ → ℕ → W → Option (Result × W)
  unfolding prepend
  readn zero nleft w = if nleft == 0 then some (done [], w) else none
  readn (suc n) nleft w =
      let (r, w') = d.read nleft w in
      let again = readn n nleft w' in
      let later : Bytes → Option (Result × W) = λ bs. readn n (nleft - length bs) w' in
      if nleft == 0 then some (done [], w) else elim r [
        | got bs ↦ elim bs [ [] ↦ some (done [], w') | x ∷ s ↦ prepend (x ∷ s) (later (x ∷ s)) ]
        | read_interrupted ↦ again
        | read_failed ↦ some (error, w')
      ]

  -- `rio_writen`, with the bytes still to write; a count of 0 is an error too, unless `errno` says
  -- EINTR.
  unfoldable pub writen : ℕ → Bytes → W → Option (Result × W)
  unfolding drop
  writen zero buf w = if length buf == 0 then some (done [], w) else none
  writen (suc n) buf w =
      let (r, w') = d.write buf w in
      let again = writen n buf w' in
      let later : ℕ → Option (Result × W) = λ k. writen n (drop k buf) w' in
      if length buf == 0 then some (done [], w) else elim r [
        | put k ↦ if k == 0 then some (error, w') else later k
        | write_interrupted ↦ again
        | write_failed ↦ some (error, w')
      ]

  -- `rio_read`: refill the buffer while it is empty, then hand out at most `n` of its bytes.
  unfoldable pub rio_read : ℕ → ℕ → Rio → W → Option (Result × (Rio × W))
  unfolding drop
  rio_read zero n rp w =
      if length rp.unread == 0
      then none
      else some (done (take n rp.unread), (record { unread = drop n rp.unread }, w))
  rio_read (suc fuel) n rp w =
      let (r, w') = d.read 8192 w in
      let again = rio_read fuel n rp w' in
      let filled : Bytes → Option (Result × (Rio × W)) =
        λ bs. some (done (take n bs), (record { unread = drop n bs }, w')) in
      if length rp.unread == 0
      then elim r [
        | got bs ↦ elim bs [ [] ↦ some (done [], (rp, w')) | x ∷ s ↦ filled (x ∷ s) ]
        | read_interrupted ↦ again
        | read_failed ↦ some (error, (rp, w'))
      ]
      else some (done (take n rp.unread), (record { unread = drop n rp.unread }, w))

  -- `rio_readnb`; what `rio_read` does on EINTR is part of `rio_read`.
  unfoldable pub readnb : ℕ → ℕ → ℕ → Rio → W → Option (Result × (Rio × W))
  unfolding rio_read prepend
  readnb fuel zero nleft rp w = if nleft == 0 then some (done [], (rp, w)) else none
  readnb fuel (suc n) nleft rp w =
      let later : Bytes → Rio → W → Option (Result × (Rio × W)) =
        λ bs rp' w'. readnb fuel n (nleft - length bs) rp' w' in
      if nleft == 0 then some (done [], (rp, w)) else elim (rio_read fuel nleft rp w) [
        | none ↦ none
        | some (error, (rp', w')) ↦ some (error, (rp', w'))
        | some (done [], (rp', w')) ↦ some (done [], (rp', w'))
        | some (done (x ∷ s), (rp', w')) ↦ prepend {S = Rio × W} (x ∷ s) (later (x ∷ s) rp' w')
      ]

  -- `rio_readlineb`, with room for `room` more bytes and the final NUL: a line is read byte by byte.
  -- With the bytes it returns `n`, which starts at 1: their number where the line has its end, or one
  -- more where the room or the stream ends first.
  unfoldable pub readlineb : ℕ → ℕ → ℕ → Rio → W → Option (Result × (ℕ × Rio × W))
  unfolding rio_read prepend
  readlineb fuel zero n rp w = some (done [], (n, rp, w))
  readlineb fuel (suc room) n rp w =
      let later : Rio → W → Option (Result × (ℕ × Rio × W)) =
        λ rp' w'. readlineb fuel room (n + 1) rp' w' in
      elim (rio_read fuel 1 rp w) [
        | none ↦ none
        | some (error, (rp', w')) ↦ some (error, (n, rp', w'))
        | some (done [], (rp', w')) ↦ some (done [], ((if n == 1 then 0 else n), rp', w'))
        | some (done (c ∷ s), (rp', w')) ↦
            if c == 10
            then some (done (c ∷ []), (n, rp', w'))
            else prepend {S = ℕ × Rio × W} (c ∷ []) (later rp' w')
      ]
