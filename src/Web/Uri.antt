-- ===== src/Web/Uri.antt =====
-- web.c: the file that a request names.
use xteam.Prelude.{
  ℕ, ◌+◌, ◌≤◌, ◌<◌, ◌≡◌, ◌≢◌, refl, ap, ◌⊎◌, inl, inr, Bool, true, false, Option, none, some, [],
  ◌∷◌, ◌++◌, arith, ◌==◌, if◌then◌else◌, ==_iff, Bool-cases, length, All, length-append,
}
use xteam.Web.Bytes.{Bytes, codes, split_at, starts_with, strstr, is_found, last_or}
use xteam.Web.Request.{web_file_path, Target, parse_uri}

-- No byte of the string is `c`.
abbrev pub IsFree : ℕ → Bytes → Type 0
IsFree c s = All (λ x. (x == c) ≡ false) s

-- What `index` should tell: that there is no `c`, or what stands before the first and behind it.
abbrev IsSplit : ℕ → Bytes → Option (Bytes × Bytes) → Type 0
IsSplit c s none = IsFree c s
IsSplit c s (some (a, b)) = (s ≡ a ++ c ∷ b) × IsFree c a

IsSplit-step :
    (c x : ℕ) (s : Bytes) (hit : Bool) (later : Option (Bytes × Bytes))
    → (x == c) ≡ hit
    → IsSplit c s later
    → IsSplit c
        (x ∷ s)
        (if hit then some ([], s) else elim later [ none ↦ none | some (a, b) ↦ some (x ∷ a, b) ])
IsSplit-step c x s true later e h = (ground (arith, ==_iff x c), tt)
IsSplit-step c x s false none e h = (e, h)
IsSplit-step c x s false (some (a, b)) e h = (ap (λ t. x ∷ t) h.0, (e, h.1))

split_at-IsSplit : (c : ℕ) (s : Bytes) → IsSplit c s (split_at c s)
unfolding split_at
split_at-IsSplit c [] = tt
split_at-IsSplit c (x ∷ s) = IsSplit-step c x s (x == c) (split_at c s) refl (split_at-IsSplit c s)

starts_with-append : (p s : Bytes) → starts_with p s ≡ true → (rest : Bytes) × (s ≡ p ++ rest)
unfolding starts_with
starts_with-append [] s h = (s, refl)
starts_with-append (x ∷ p) [] h = absurd (cc)
starts_with-append (x ∷ p) (y ∷ s) h =
    let (rest, e) = starts_with-append p s (ground arith) in
    let first : y ≡ x = ground (arith, ==_iff x y) in (rest, rw (first, e) refl)

starts_with-prefix : (p s : Bytes) → starts_with p (p ++ s) ≡ true
unfolding starts_with
starts_with-prefix [] s = refl
starts_with-prefix (x ∷ p) s =
    let e : (x == x) ≡ true = ground (arith, ==_iff x x) in rw e (starts_with-prefix p s)

-- The string holds `p`, with what stands before and behind it.
abbrev pub Occurs : Bytes → Bytes → Type 0
Occurs s p = (front : Bytes) × (rest : Bytes) × (s ≡ front ++ (p ++ rest))

-- The string holds no `p`.
abbrev pub IsWithout : Bytes → Bytes → Type 0
IsWithout s p = (front rest : Bytes) → s ≢ front ++ (p ++ rest)

strstr-Occurs : (s p : Bytes) → is_found (strstr s p) ≡ true → Occurs s p
unfolding strstr is_found
strstr-Occurs [] p h = elim (Bool-cases (starts_with p [])) [
  | inl e ↦ let (rest, q) = starts_with-append p [] e in ([], rest, q)
  | inr e ↦ let none_here : is_found none ≡ true = rw e at h in absurd (cc)
]
strstr-Occurs (x ∷ s) p h = elim (Bool-cases (starts_with p (x ∷ s))) [
  | inl e ↦ let (rest, q) = starts_with-append p (x ∷ s) e in ([], rest, q)
  | inr e ↦
      let later : is_found (strstr s p) ≡ true = rw e at h in
      let (front, rest, q) = strstr-Occurs s p later in (x ∷ front, rest, ap (λ t. x ∷ t) q)
]

strstr-finds : (front p rest : Bytes) → is_found (strstr (front ++ (p ++ rest)) p) ≡ true
unfolding strstr is_found
strstr-finds [] [] [] = refl
strstr-finds [] [] (x ∷ rest) = refl
strstr-finds [] (x ∷ p) rest = rw (starts_with-prefix (x ∷ p) rest) refl
strstr-finds (x ∷ front) p rest = elim (Bool-cases (starts_with p (x ∷ front ++ (p ++ rest)))) [
  | inl e ↦ rw e refl
  | inr e ↦ rw e (strstr-finds front p rest)
]

strstr-IsWithout : (s p : Bytes) → is_found (strstr s p) ≡ false → IsWithout s p
strstr-IsWithout s p h front rest e = ground (arith, rw e at h, strstr-finds front p rest)

-- What the server may rely on. A request that does not hold `cgi-bin` is static: its file is the path
-- below ./htdocs, with home.html for a directory, and there are no arguments.
abbrev pub IsStatic : ℕ → Bytes → Target → Type 0
IsStatic before uri t =
    (t.is_static ≡ true)
    × (t.cgiargs ≡ [])
    × (t.filename
        ≡ web_file_path ++ uri ++ (if last_or before uri == 47 then codes "home.html" else []))

-- One that does is dynamic: it is cut at its first question mark, with what follows as the arguments,
-- and nothing of it is lost.
abbrev pub IsDynamic : Bytes → Target → Type 0
IsDynamic uri t =
    (t.is_static ≡ false)
    × (IsFree 63 uri × (t.filename ≡ web_file_path ++ uri) × (t.cgiargs ≡ [])
        ⊎ (path : Bytes) × (t.filename ≡ web_file_path ++ path)
          × IsFree 63 path
          × (uri ≡ path ++ 63 ∷ t.cgiargs))

abbrev pub IsParsed : ℕ → Bytes → Target → Type 0
IsParsed before uri t =
    IsWithout uri (codes "cgi-bin") × IsStatic before uri t
    ⊎ Occurs uri (codes "cgi-bin") × IsDynamic uri t

dynamic_target : Bytes → Option (Bytes × Bytes) → Target
dynamic_target uri o = elim o [
  | none ↦ record { is_static = false; filename = web_file_path ++ uri; cgiargs = [] }
  | some (path, query) ↦ record {
    is_static = false;
    filename = web_file_path ++ path;
    cgiargs = query;
  }
]

dynamic_target-IsDynamic :
    (uri : Bytes) (o : Option (Bytes × Bytes))
    → IsSplit 63 uri o
    → IsDynamic uri (dynamic_target uri o)
unfolding dynamic_target
dynamic_target-IsDynamic uri none h = (refl, inl (h, refl, refl))
dynamic_target-IsDynamic uri (some (path, query)) h = (refl, inr (path, refl, h.1, h.0))

either_target :
    (before : ℕ) (uri : Bytes) (b : Bool) (x y : Target)
    → is_found (strstr uri (codes "cgi-bin")) ≡ b
    → IsDynamic uri x
    → IsStatic before uri y
    → IsParsed before uri (if b then x else y)
either_target before uri true x y e h k = inr (strstr-Occurs uri (codes "cgi-bin") e, h)
either_target before uri false x y e h k = inl (strstr-IsWithout uri (codes "cgi-bin") e, k)

-- A request is static exactly where its path does not hold `cgi-bin`. Then its file is the path below
-- ./htdocs, with home.html for a directory, and there are no arguments. In a dynamic one what stands
-- before the first question mark names the program below ./htdocs, and all of what stands behind it is
-- the arguments, of which there are none where there is no question mark.
pub parse_uri_lem : (before : ℕ) (uri : Bytes) → IsParsed before uri (parse_uri before uri)
unfolding parse_uri dynamic_target
parse_uri_lem before uri =
    let home = if last_or before uri == 47 then codes "home.html" else [] in
    either_target before uri (is_found (strstr uri (codes "cgi-bin")))
      (dynamic_target uri (split_at 63 uri))
      (record { is_static = true; filename = web_file_path ++ uri ++ home; cgiargs = [] }) refl
      (dynamic_target-IsDynamic uri (split_at 63 uri) (split_at-IsSplit 63 uri)) (refl, refl, refl)

length_shorter :
    (path uri query : Bytes) → uri ≡ path ++ 63 ∷ query → length path + length query < length uri
length_shorter path uri query e = rw (e, length-append path (63 ∷ query)) (omega arith)

home_length :
    (before : ℕ) (uri : Bytes)
    → length (if last_or before uri == 47 then codes "home.html" else []) ≤ 9
home_length before uri = elim (Bool-cases (last_or before uri == 47)) [
  | inl e ↦ rw e (omega arith)
  | inr e ↦ rw e (omega arith)
]

-- The file name is at most 17 bytes longer than the request's path, so that it fits the array of 8192
-- bytes, with its NUL, for a path of at most 8174 bytes; the arguments are no longer than the path.
pub parse_uri-bounds :
    (before : ℕ) (uri : Bytes)
    → let t = parse_uri before uri in
      (length t.filename ≤ length uri + 17) × (length t.cgiargs ≤ length uri)
parse_uri-bounds before uri =
    let t = parse_uri before uri in
    elim (parse_uri_lem before uri) [
      | inl (no_cgi, still) ↦
          let (flag, c, f) = still in
          let home = if last_or before uri == 47 then codes "home.html" else [] in
          rw (c, f)
            (ground (
              arith,
              length-append (web_file_path ++ uri) home,
              length-append web_file_path uri,
              home_length before uri,
            ))
      | inr (cgi, moving) ↦ elim moving.1 [
        | inl (free, f, c) ↦ rw (c, f) (ground (arith, length-append web_file_path uri))
        | inr (path, f, free, u) ↦
            rw f (
              ground (arith, length-append web_file_path path, length_shorter path uri t.cgiargs u))
      ]
    ]
