-- ===== src/Rio/Tests.antt =====
-- csapp.c: reads from a stream that hands out at most two bytes at once.
use xteam.Prelude.{
  ℕ, zero, suc, ◌<◌, ◌≡◌, refl, some, [], ◌∷◌, ◌++◌, arith, length, take, length-take,
}
use xteam.Rio.Types.{Bytes, got, put, Descriptor, done}
use xteam.Rio.Io.{readn, readlineb, readinitb, drop}
use xteam.Rio.Stream.{IsStream, readn_lem}

-- At most two bytes, and at most as many as asked for.
abbrev piece : ℕ → Bytes → Bytes
piece n w = take n (take 2 w)

abbrev after : ℕ → Bytes → Bytes
after n w = drop (length (piece n w)) w

instance pieces : Descriptor Bytes
pieces = record {
  read = λ n w. (got (piece n w), after n w);
  write = λ bs w. (put 1, w ++ take 1 bs);
}

contents : Bytes → Bytes
contents w = w

take-drop_piece : (n : ℕ) (w : Bytes) → w ≡ piece n w ++ after n w
unfolding drop
take-drop_piece zero w = refl
take-drop_piece (suc n) [] = refl
take-drop_piece (suc zero) (x ∷ w) = refl
take-drop_piece (suc (suc n)) (x ∷ []) = refl
take-drop_piece (suc (suc zero)) (x ∷ y ∷ w) = refl
take-drop_piece (suc (suc (suc n))) (x ∷ y ∷ w) = refl

piece_ends : (n : ℕ) (w : Bytes) → 0 < n → piece n w ≡ [] → w ≡ []
piece_ends zero w p e = absurd (omega arith)
piece_ends (suc n) [] p e = refl
piece_ends (suc n) (x ∷ w) p e = absurd cc

pieces-IsStream : IsStream pieces contents
unfolding pieces contents
pieces-IsStream = record {
  bytes = piece;
  answered = λ n w. refl;
  in_order = take-drop_piece;
  at_most = λ n w. omega (arith, length-take n (take 2 w));
  ends = piece_ends;
}

readn_lem_example :
    (w' : Bytes) × (readn 9 5 (1 ∷ 2 ∷ 3 ∷ [])
      ≡ some (done (take 5 (contents (1 ∷ 2 ∷ 3 ∷ []))), w'))
    × (contents (1 ∷ 2 ∷ 3 ∷ []) ≡ take 5 (contents (1 ∷ 2 ∷ 3 ∷ [])) ++ contents w')
readn_lem_example = readn_lem pieces-IsStream 9 5 (1 ∷ 2 ∷ 3 ∷ []) (omega arith)

readlineb_runs :
    readlineb {W = Bytes} 9 8 1 readinitb (65 ∷ 10 ∷ 66 ∷ [])
    ≡ some (done (65 ∷ 10 ∷ []), (2, record { unread = [] }, 66 ∷ []))
unfolding readlineb readinitb pieces
readlineb_runs = refl
