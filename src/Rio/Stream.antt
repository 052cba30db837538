-- ===== src/Rio/Stream.antt =====
-- csapp.c: `rio_readn` on a stream that hands out its bytes in pieces.
use xteam.Prelude.{
  ℕ, zero, suc, ◌-◌, ◌≤◌, ◌<◌, ◌≡◌, refl, sym, ap, ◌∙◌, false, some, [], ◌∷◌, ◌++◌, arith, ◌==◌,
  length, take,
}
use xteam.Rio.Types.{Bytes, got, Descriptor, done}
use xteam.Rio.Io.{prepend, readn}

-- What read(2) says of a stream that no signal interrupts: it hands out some of the bytes that are
-- left, at most as many as asked for, and none only where none are left.
pub record IsStream {W : Type 0} (d : Descriptor W) (contents : W → Bytes) : Type 0 where
  pub bytes : ℕ → W → Bytes
  pub answered : (n : ℕ) (w : W) → (d.read n w).0 ≡ got (bytes n w)
  pub in_order : (n : ℕ) (w : W) → contents w ≡ bytes n w ++ contents (d.read n w).1
  pub at_most : (n : ℕ) (w : W) → length (bytes n w) ≤ n
  pub ends : (n : ℕ) (w : W) → 0 < n → bytes n w ≡ [] → contents w ≡ []

take-nil : (n : ℕ) → take {A = ℕ} n [] ≡ []
take-nil zero = refl
take-nil (suc n) = refl

append-append : (xs ys zs : Bytes) → xs ++ ys ++ zs ≡ xs ++ (ys ++ zs)
append-append [] ys zs = refl
append-append (x ∷ xs) ys zs = ap (λ t. x ∷ t) (append-append xs ys zs)

take-append :
    (n : ℕ) (xs ys : Bytes) → length xs ≤ n → take n (xs ++ ys) ≡ xs ++ take (n - length xs) ys
take-append n [] ys h = ap (λ k. take k ys) (omega arith)
take-append zero (x ∷ xs) ys h = absurd (omega arith)
take-append (suc n) (x ∷ xs) ys h = ground (arith, take-append n xs ys)

module _ {W : Type 0} ⦃d : Descriptor W⦄ {contents : W → Bytes} (stream : IsStream d contents) where
  readn-answer :
      (fuel n : ℕ) (w : W) (bs : Bytes)
      → 0 < n
      → (d.read n w).0 ≡ got bs
      → let w' = (d.read n w).1 in
        readn (suc fuel) n w ≡ elim bs [
          | [] ↦ some (done [], w')
          | x ∷ s ↦ prepend {S = W} (x ∷ s) (readn fuel (n - length (x ∷ s)) w')
        ]
  unfolding readn
  readn-answer fuel n w bs p e = let ne : (n == 0) ≡ false = ground arith in rw (ne, e) refl

  -- The bytes that `rio_readn` should return, and a state that leaves the rest.
  abbrev IsRead : ℕ → ℕ → W → Type 0
  IsRead fuel n w =
      (w' : W) × (readn fuel n w ≡ some (done (take n (contents w)), w'))
      × (contents w ≡ take n (contents w) ++ contents w')

  IsRead-step :
      (fuel n : ℕ) (w : W) (bs : Bytes)
      → 0 < n
      → (d.read n w).0 ≡ got bs
      → contents w ≡ bs ++ contents (d.read n w).1
      → length bs ≤ n
      → (bs ≡ [] → contents w ≡ [])
      → ((k : ℕ) → k < n → IsRead fuel k (d.read n w).1)
      → IsRead (suc fuel) n w
  unfolding prepend
  IsRead-step fuel n w [] p e c le end_ next =
      let w' = (d.read n w).1 in
      let nothing : take n (contents w) ≡ [] = ap (take n) (end_ refl) ∙ take-nil n in
      (
        w',
        readn-answer fuel n w [] p e ∙ ap (λ s. some (done s, w')) (sym nothing),
        c ∙ ap (λ s. s ++ contents w') (sym nothing),
      )
  IsRead-step fuel n w (x ∷ s) p e c le end_ next =
      let w1 = (d.read n w).1 in
      let left = n - length (x ∷ s) in
      let (w2, r, c2) = next left (omega arith) in
      let whole : take n (contents w) ≡ (x ∷ s) ++ take left (contents w1) =
        ap (take n) c ∙ take-append n (x ∷ s) (contents w1) le in
      (
        w2,
        readn-answer fuel n w (x ∷ s) p e
            ∙ ap (prepend {S = W} (x ∷ s)) r
            ∙ ap (λ t. some (done t, w2)) (sym whole),
        c
            ∙ ap (λ t. (x ∷ s) ++ t) c2
            ∙ sym (append-append (x ∷ s) (take left (contents w1)) (contents w2))
            ∙ ap (λ t. t ++ contents w2) (sym whole),
      )

  -- Short counts do not matter: with a round for each byte and one more, `rio_readn` returns the next
  -- `n` bytes of the stream, or all that are left, and leaves the rest.
  pub readn_lem :
      (fuel n : ℕ) (w : W)
      → n < fuel
      → (w' : W) × (readn fuel n w ≡ some (done (take n (contents w)), w'))
        × (contents w ≡ take n (contents w) ++ contents w')
  unfolding readn
  readn_lem zero n w h = absurd (omega arith)
  readn_lem (suc fuel) zero w h = (w, refl, refl)
  readn_lem (suc fuel) (suc n) w h =
      IsRead-step fuel (suc n) w (stream.bytes (suc n) w) (omega arith) (stream.answered (suc n) w)
        (stream.in_order (suc n) w) (stream.at_most (suc n) w) (stream.ends (suc n) w (omega arith))
        (λ k lt. readn_lem fuel k (d.read (suc n) w).1 (omega arith))
