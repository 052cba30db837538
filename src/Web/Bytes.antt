-- ===== src/Web/Bytes.antt =====
-- web.c: strings as sequences of bytes without the final NUL, and the functions of string.h and
-- stdlib.h that the server calls.
use Prim.Native.Char.{code}
use Prim.Native.String.{String}
use xteam.Prelude.{
  ℕ, zero, suc, ◌+◌, ◌-◌, ◌*◌, Bool, true, false, ◌&&◌, ◌||◌, Option, none, some, List, [], ◌∷◌,
  leb, ◌==◌, if◌then◌else◌,
}

abbrev pub Bytes : Type 0
Bytes = List ℕ

-- The bytes of a literal.
abbrev pub codes : String → Bytes
codes String.[] = []
codes (String.◌∷◌ c s) = code c ∷ codes s

unfoldable pub drop : ℕ → Bytes → Bytes
drop zero s = s
drop (suc n) [] = []
drop (suc n) (x ∷ s) = drop n s

-- `strcmp(a, b) == 0`
unfoldable pub same : Bytes → Bytes → Bool
same [] [] = true
same [] (y ∷ ys) = false
same (x ∷ xs) [] = false
same (x ∷ xs) (y ∷ ys) = x == y && same xs ys

-- Whether `s` starts with `p`.
unfoldable pub starts_with : Bytes → Bytes → Bool
starts_with [] s = true
starts_with (x ∷ p) [] = false
starts_with (x ∷ p) (y ∷ s) = x == y && starts_with p s

-- `strstr(s, p)`: what `s` holds from the first `p` on.
unfoldable pub strstr : Bytes → Bytes → Option Bytes
unfolding starts_with
strstr [] p = if starts_with p [] then some [] else none
strstr (x ∷ s) p = let later = strstr s p in if starts_with p (x ∷ s) then some (x ∷ s) else later

unfoldable pub is_found : Option Bytes → Bool
is_found none = false
is_found (some s) = true

-- `index(s, c)`: what stands before the first `c`, and behind it.
unfoldable pub split_at : ℕ → Bytes → Option (Bytes × Bytes)
split_at c [] = none
split_at c (x ∷ s) =
    let later = split_at c s in
    if x == c then some ([], s) else elim later [ none ↦ none | some (a, b) ↦ some (x ∷ a, b) ]

-- The last byte of a string; for the empty one, what stands before it in memory.
unfoldable pub last_or : ℕ → Bytes → ℕ
last_or d [] = d
last_or d (x ∷ s) = last_or x s

-- What a string function sees of an array: the bytes up to the first NUL.
unfoldable pub until_nul : Bytes → Bytes
until_nul [] = []
until_nul (x ∷ s) = if x == 0 then [] else x ∷ until_nul s

-- The first `n` bytes of an array that is filled up with NUL.
unfoldable pub fit : ℕ → Bytes → Bytes
fit zero s = []
fit (suc n) [] = 0 ∷ fit n []
fit (suc n) (x ∷ s) = x ∷ fit n s

-- `tolower`, as `strncasecmp` reads ASCII.
unfoldable pub lower : ℕ → ℕ
lower x = if leb 65 x && leb x 90 then x + 32 else x

abbrev pub is_space : ℕ → Bool
is_space x = x == 32 || (leb 9 x && leb x 13)

unfoldable pub skip_spaces : Bytes → Bytes
skip_spaces [] = []
skip_spaces (x ∷ s) = if is_space x then skip_spaces s else x ∷ s

-- `%s` of `sscanf`: a word and what follows it.
unfoldable pub take_word : Bytes → Bytes × Bytes
take_word [] = ([], [])
take_word (x ∷ s) = let (w, rest) = take_word s in if is_space x then ([], x ∷ s) else (x ∷ w, rest)

-- The digits that a string starts with, as a number, `n` before them.
unfoldable pub read_digits : ℕ → Bytes → ℕ
read_digits n [] = n
read_digits n (x ∷ s) = if leb 48 x && leb x 57 then read_digits (n * 10 + (x - 48)) s else n

-- `atol`; a number with a minus sign, which C reads as negative, is 0 here, and no number is too large.
unfoldable pub atol : Bytes → ℕ
unfolding skip_spaces read_digits
atol s = elim (skip_spaces s) [
  | [] ↦ 0
  | x ∷ t ↦ if x == 43 then read_digits 0 t else read_digits 0 (x ∷ t)
]
