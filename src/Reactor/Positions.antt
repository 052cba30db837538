-- ===== src/Reactor/Positions.antt =====
-- ae.c: an element of a list, named by how many stand behind it.
use xteam.Prelude.{◌≡◌, refl, ap, some, List, [], ◌∷◌, ◌++◌, arith, length, length-append}
use xteam.Reactor.Due.{at_position, change_position, remove_position}

module _ {ℓ} {A : Type ℓ} where
  pub at_position-append :
      (xs : List A) (y : A) (ys : List A) → at_position (length ys) (xs ++ y ∷ ys) ≡ some y
  unfolding at_position
  at_position-append [] y ys = ground arith
  at_position-append (x ∷ xs) y ys =
      ground (arith, at_position-append xs y ys, length-append xs (y ∷ ys))

  pub change_position-append :
      (f : A → A) (xs : List A) (y : A) (ys : List A)
      → change_position (length ys) f (xs ++ y ∷ ys) ≡ xs ++ f y ∷ ys
  unfolding change_position
  change_position-append f [] y ys = ground arith
  change_position-append f (x ∷ xs) y ys =
      ground (arith, change_position-append f xs y ys, length-append xs (y ∷ ys))

  pub remove_position-append :
      (xs : List A) (y : A) (ys : List A) → remove_position (length ys) (xs ++ y ∷ ys) ≡ xs ++ ys
  unfolding remove_position
  remove_position-append [] y ys = ground arith
  remove_position-append (x ∷ xs) y ys =
      ground (arith, remove_position-append xs y ys, length-append xs (y ∷ ys))

  pub append-append : (xs ys zs : List A) → xs ++ ys ++ zs ≡ xs ++ (ys ++ zs)
  append-append [] ys zs = refl
  append-append (x ∷ xs) ys zs = ap (λ t. x ∷ t) (append-append xs ys zs)
