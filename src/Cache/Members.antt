-- ===== src/Cache/Members.antt =====
-- Addresses in a list without repetitions.
use xteam.Prelude.{
  ℕ, ◌+◌, ◌<◌, ◌≡◌, refl, inl, inr, Bool, true, false, not, ◌&&◌, ◌||◌, some, List, [], ◌∷◌, arith,
  ◌==◌, Bool-cases, length,
}
use xteam.Cache.Types.{remove, pop_back, back}
use mathlib.Core.Path.{subst}

abbrev pub member : ℕ → List ℕ → Bool
member p [] = false
member p (r ∷ rs) = r == p || member p rs

abbrev pub IsDistinct : List ℕ → Type 0
IsDistinct [] = Unit
IsDistinct (r ∷ rs) = (member r rs ≡ false) × IsDistinct rs

pub member-remove : (r p : ℕ) (rs : List ℕ) → member r (remove p rs) ≡ (not (r == p) && member r rs)
unfolding remove
member-remove r p [] = ground arith
member-remove r p (q ∷ rs) = ground (arith, member-remove r p rs)

pub remove-IsDistinct : (p : ℕ) (rs : List ℕ) → IsDistinct rs → IsDistinct (remove p rs)
unfolding remove
remove-IsDistinct p [] d = d
remove-IsDistinct p (q ∷ rs) (fresh, d) = elim (Bool-cases (q == p)) [
  | inl e ↦ rw e (remove-IsDistinct p rs d)
  | inr e ↦ rw e (ground (arith, member-remove q p rs), remove-IsDistinct p rs d)
]

pub remove-fresh : (p : ℕ) (rs : List ℕ) → member p rs ≡ false → remove p rs ≡ rs
unfolding remove
remove-fresh p [] h = refl
remove-fresh p (q ∷ rs) h = ground (arith, remove-fresh p rs)

pub length-remove :
    (p : ℕ) (rs : List ℕ)
    → IsDistinct rs
    → member p rs ≡ true
    → length (remove p rs) + 1 ≡ length rs
unfolding remove
length-remove p [] d h = absurd (ground arith)
length-remove p (q ∷ rs) (fresh, d) h = elim (Bool-cases (q == p)) [
  | inl e ↦
      let same : q ≡ p = ground arith in
      let gone = remove-fresh p rs (subst (λ x. member x rs ≡ false) same fresh) in
      rw e (rw gone (omega arith))
  | inr e ↦ rw e (omega (arith, length-remove p rs d (ground arith)))
]

-- A list that is not empty is its last element behind the others.
pub back_lem :
    (rs : List ℕ)
    → IsDistinct rs
    → 0 < length rs
    → (p : ℕ) × (back rs ≡ some p)
      × IsDistinct (pop_back rs)
      × (length (pop_back rs) + 1 ≡ length rs)
      × ((r : ℕ) → member r rs ≡ (r == p || member r (pop_back rs)))
      × (member p (pop_back rs) ≡ false)
unfolding back pop_back
back_lem [] d h = absurd (omega arith)
back_lem (x ∷ []) d h = (x, refl, record {}, omega arith, λ r. ground arith, refl)
back_lem (x ∷ y ∷ xs) (fresh, d) h =
    let (p, last, d', len, mem, gone) = back_lem (y ∷ xs) d (omega arith) in
    (
      p,
      last,
      (ground (arith, mem x), d'),
      omega arith,
      λ r. ground (arith, mem r),
      ground (arith, mem x, mem p),
    )
