-- ===== src/Web/Endless.antt =====
-- web.c: a request whose headers do not end.
use xteam.Prelude.{
  ℕ, zero, suc, ◌≤◌, ◌<◌, ◌≡◌, refl, ◌∙◌, Bool, false, ◌||◌, none, some, List, [], ◌∷◌, ◌++◌, map,
  arith, ◌==◌, length, length-append,
}
use xteam.Web.Bytes.{Bytes, codes, same, split_at, starts_with, lower}
use xteam.Web.Request.{scan_headers, post_https_requesthdrs}

-- Whether some byte of the string is `c`.
abbrev pub has : ℕ → Bytes → Bool
has c [] = false
has c (x ∷ s) = (x == c) || has c s

split_at-none : (c : ℕ) (s : Bytes) → has c s ≡ false → split_at c s ≡ none
unfolding split_at
split_at-none c [] e = refl
split_at-none c (x ∷ s) e = ground (arith, split_at-none c s)

-- A rest with no line end, other than the blank line, is never left, however long the walk goes on.
scan_headers-stuck :
    (n : ℕ) (ptr line : Bytes) (len : ℕ)
    → has 10 ptr ≡ false
    → same ptr (codes "\r\n") ≡ false
    → scan_headers n ptr line len ≡ none
unfolding scan_headers
scan_headers-stuck zero ptr line len e d = rw d refl
scan_headers-stuck (suc n) ptr line len e d =
    rw (d, split_at-none 10 ptr e) (scan_headers-stuck n ptr line len e d)

-- The header line of a content length.
abbrev pub names_length : Bytes → Bool
names_length ptr = starts_with (codes "content-length:") (map lower ptr)

skipped :
    (n : ℕ) (ptr front rest line : Bytes) (len : ℕ)
    → same ptr (codes "\r\n") ≡ false
    → split_at 10 ptr ≡ some (front, rest)
    → names_length ptr ≡ false
    → scan_headers (suc n) ptr line len ≡ scan_headers n rest line len
unfolding scan_headers
skipped n ptr front rest line len d e f = rw (d, e, f) refl

-- The lines of a request's head, each with its line end, and what stands behind them.
abbrev pub joined : List Bytes → Bytes → Bytes
joined [] body = body
joined (l ∷ ls) body = l ++ 10 ∷ joined ls body

-- No line tells a content length.
abbrev pub IsPlain : List Bytes → Bytes → Type 0
IsPlain [] body = Unit
IsPlain (l ∷ ls) body =
    (has 10 l ≡ false) × (names_length (joined (l ∷ ls) body) ≡ false) × IsPlain ls body

split_at-joined :
    (l rest : Bytes) → has 10 l ≡ false → split_at 10 (l ++ 10 ∷ rest) ≡ some (l, rest)
unfolding split_at
split_at-joined [] rest e = refl
split_at-joined (x ∷ l) rest e = ground (arith, split_at-joined l rest)

joined_longer : (ls : List Bytes) (body : Bytes) → length body ≤ length (joined ls body)
joined_longer [] body = omega arith
joined_longer (l ∷ ls) body =
    ground (arith, joined_longer ls body, length-append l (10 ∷ joined ls body))

not_blank : (l rest : Bytes) → 0 < length rest → same (l ++ 10 ∷ rest) (codes "\r\n") ≡ false
unfolding same
not_blank [] rest h = ground arith
not_blank (x ∷ []) [] h = absurd (omega arith)
not_blank (x ∷ []) (y ∷ rest) h = ground arith
not_blank (x ∷ y ∷ []) rest h = ground arith
not_blank (x ∷ y ∷ z ∷ l) rest h = ground arith

not_blank_body : (body : Bytes) → has 10 body ≡ false → same body (codes "\r\n") ≡ false
unfolding same
not_blank_body [] e = refl
not_blank_body (x ∷ []) e = ground arith
not_blank_body (x ∷ y ∷ body) e = ground arith

scan_headers-endless :
    (n : ℕ) (ls : List Bytes) (body line : Bytes) (len : ℕ)
    → IsPlain ls body
    → 0 < length body
    → has 10 body ≡ false
    → scan_headers n (joined ls body) line len ≡ none
unfolding scan_headers
scan_headers-endless n [] body line len plain h e =
    scan_headers-stuck n body line len e (not_blank_body body e)
scan_headers-endless zero (l ∷ ls) body line len plain h e =
    let rest = joined ls body in rw (not_blank l rest (omega (arith, joined_longer ls body))) refl
scan_headers-endless (suc n) (l ∷ ls) body line len (free, other, plain) h e =
    let rest = joined ls body in
    skipped n (l ++ 10 ∷ rest) l rest line len
      (not_blank l rest (omega (arith, joined_longer ls body))) (split_at-joined l rest free) other
    ∙ scan_headers-endless n ls body line len plain h e

-- Where no line of a request tells a content length, and a body without a line end stands behind
-- them, the walk over the headers does not end, whatever number of rounds it is given.
pub post_https_requesthdrs-endless :
    (fuel : ℕ) (ls : List Bytes) (body cgiargs : Bytes)
    → IsPlain ls body
    → 0 < length body
    → has 10 body ≡ false
    → post_https_requesthdrs fuel (joined ls body) cgiargs ≡ none
unfolding post_https_requesthdrs
post_https_requesthdrs-endless fuel ls body cgiargs plain h e =
    rw (scan_headers-endless fuel ls body [] 0 plain h e, post_https_requesthdrs) refl
