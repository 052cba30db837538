-- ===== src/Cache/Lru.antt =====
-- cache.h: `Get` and `Set` of `LRUCache`, as operations on its keys and values, the newest first.
use xteam.Prelude.{
  ℕ, ◌≡◌, refl, sym, ap, ◌∙◌, ◌≢◌, inl, inr, Bool, true, false, Option, none, some, List, [], ◌∷◌,
  map, arith, ◌==◌, if◌then◌else◌, ==_iff, Bool-cases, Option-cases,
}
use mathlib.Core.Path.{subst}
use xteam.Cache.Types.{Key, LruCache, remove, new_cache, get}
use xteam.Cache.Members.{member, member-remove, remove-IsDistinct, length-remove}
use xteam.Cache.Held.{view, map_agree, IsHeld, IsHeldBut, push_lem}

module _ {K V : Type 0} ⦃k : Key K⦄ where
  -- What is left without a key.
  abbrev pub without : K → List (K × V) → List (K × V)
  without key [] = []
  without key (c ∷ cs) = if k.eq c.0 key then without key cs else c ∷ without key cs

  abbrev pub newest_is : K → List (K × V) → Bool
  newest_is key [] = false
  newest_is key (c ∷ cs) = k.eq c.0 key

  -- The value of a key.
  abbrev pub lookup : K → List (K × V) → Option V
  lookup key [] = none
  lookup key (c ∷ cs) = if k.eq c.0 key then some c.1 else lookup key cs

  pub map-remove :
      (f : ℕ → K × V) (rs : List ℕ) (p : ℕ) (key : K)
      → ((r : ℕ) → member r rs ≡ true → (r == p) ≡ k.eq (f r).0 key)
      → map f (remove p rs) ≡ without key (map f rs)
  unfolding remove
  map-remove f [] p key same = refl
  map-remove f (r ∷ rs) p key same =
      let here = same r (ground arith) in
      let rest = map-remove f rs p key (λ q h. same q (ground arith)) in
      elim (Bool-cases (r == p)) [
        | inl e ↦ rw e (rw (sym here ∙ e) rest)
        | inr e ↦ rw e (rw (sym here ∙ e) (ap (λ l. f r ∷ l) rest))
      ]

  -- In the list only the node that the map leads to has the key.
  pub held-key :
      (key : K) (p : ℕ) (s : LruCache K V)
      → IsHeld s
      → s.values key ≡ some p
      → (r : ℕ) → member r s.logiclists ≡ true
      → (r == p) ≡ k.eq (s.node r).0 key
  held-key key p s (held, found, distinct, size) here r m =
      let (older, value_of) = held r m in
      elim (Bool-cases (k.eq (s.node r).0 key)) [
        | inl e ↦
            let equal : (s.node r).0 ≡ key = (k.eq_iff (s.node r).0 key).0 e in
            let twice : s.values key ≡ some r = subst (λ x. s.values x ≡ some r) equal value_of in
            rw e (ground arith)
        | inr e ↦
            let differ : r ≢ p = λ same.
              let equal : (s.node r).0 ≡ key = ap (λ a. (s.node a).0) same ∙ (found key p here).1 in
              let contrary : k.eq (s.node r).0 key ≡ true = (k.eq_iff (s.node r).0 key).1 equal in
              absurd (ground arith) in
            rw e (ground arith)
      ]

  pub absent-key :
      (key : K) (s : LruCache K V)
      → IsHeld s
      → s.values key ≡ none
      → (r : ℕ) → member r s.logiclists ≡ true
      → k.eq (s.node r).0 key ≡ false
  absent-key key s (held, found, distinct, size) here r m =
      elim (Bool-cases (k.eq (s.node r).0 key)) [
        | inl e ↦
            let (older, value_of) = held r m in
            let equal : (s.node r).0 ≡ key = (k.eq_iff (s.node r).0 key).0 e in
            let twice : s.values key ≡ some r = subst (λ x. s.values x ≡ some r) equal value_of in
            absurd (ground arith)
        | inr e ↦ e
      ]

  lookup-map :
      (f : ℕ → K × V) (rs : List ℕ) (p : ℕ) (key : K)
      → ((r : ℕ) → member r rs ≡ true → (r == p) ≡ k.eq (f r).0 key)
      → member p rs ≡ true
      → lookup key (map f rs) ≡ some (f p).1
  lookup-map f [] p key same m = absurd (ground arith)
  lookup-map f (r ∷ rs) p key same m =
      let here = same r (ground arith) in
      elim (Bool-cases (r == p)) [
        | inl e ↦ rw (sym here ∙ e) (ap (λ a. some (f a).1) ((==_iff r p).0 e))
        | inr e ↦
            rw (sym here ∙ e) (lookup-map f rs p key (λ q h. same q (ground arith)) (ground arith))
      ]

  lookup-absent :
      (f : ℕ → K × V) (rs : List ℕ) (key : K)
      → ((r : ℕ) → member r rs ≡ true → k.eq (f r).0 key ≡ false)
      → lookup key (map f rs) ≡ none
  lookup-absent f [] key differ = refl
  lookup-absent f (r ∷ rs) key differ =
      rw (differ r (ground arith)) (lookup-absent f rs key (λ q h. differ q (ground arith)))

  pub absent-IsHeldBut :
      (key : K) (value : V) (s : LruCache K V)
      → IsHeld s
      → s.values key ≡ none
      → IsHeldBut key s.next (new_cache key value s) × (view (new_cache key value s) ≡ view s)
  unfolding new_cache
  absent-IsHeldBut key value s (held, found, distinct, size) here = (
    (
      λ r m.
          let (older, value_of) = held r m in
          let old : (r == s.next) ≡ false = ground arith in
          rw old (older, value_of, absent-key key s (held, found, distinct, size) here r m),
      λ x p v ne.
          let (m, is) = found x p v in
          let (older, value_of) = held p m in
          let old : (p == s.next) ≡ false = ground arith in (m, rw old is),
      distinct,
      rw here (omega arith),
      refl,
    ),
    map_agree (λ p. (new_cache key value s).node p) (λ p. s.node p) s.logiclists
        (λ r m. let (older, value_of) = held r m in ground arith),
  )

  pub present-IsHeldBut :
      (key : K) (value : V) (p : ℕ) (s : LruCache K V)
      → IsHeld s
      → s.values key ≡ some p
      → let t = record (new_cache key value s) { logiclists = remove p s.logiclists } in
        IsHeldBut key s.next t × (view t ≡ without key (view s))
  unfolding new_cache
  present-IsHeldBut key value p s inv here =
      let (held, found, distinct, size) = inv in
      let only = held-key key p s inv here in
      let (inside, key_of) = found key p here in
      (
        (
          λ r m.
              let in_list : member r s.logiclists ≡ true =
                ground (arith, member-remove r p s.logiclists) in
              let (older, value_of) = held r in_list in
              let old : (r == s.next) ≡ false = ground arith in
              let differ : k.eq (s.node r).0 key ≡ false =
                ground (arith, only r, member-remove r p s.logiclists) in
              rw old (older, value_of, differ),
          λ x r v ne.
              let (m, is) = found x r v in
              let (older, value_of) = held r m in
              let old : (r == s.next) ≡ false = ground arith in
              let differ : (r == p) ≡ false =
                only r m ∙ (subst (λ y. k.eq y key ≡ false) (sym is) ne) in
              (ground (arith, member-remove r p s.logiclists), rw old is),
          remove-IsDistinct p s.logiclists distinct,
          rw here (omega (arith, length-remove p s.logiclists distinct inside)),
          refl,
        ),
        map_agree (λ r. (new_cache key value s).node r) (λ r. s.node r) (remove p s.logiclists)
              (λ r m.
                let in_list : member r s.logiclists ≡ true =
                  ground (arith, member-remove r p s.logiclists) in
                let (older, value_of) = held r in_list in ground arith)
            ∙ map-remove (λ r. s.node r) s.logiclists p key only,
      )

  -- A key that was found becomes the newest.
  abbrev pub touch : K → Option V → List (K × V) → List (K × V)
  touch key none l = l
  touch key (some v) l = (key, v) ∷ without key l

  -- Where the map and the list agree, `Get` returns the value of the key, or false where there is none;
  -- a key that was found becomes the newest, and the map and the list agree again.
  pub get_lem :
      (key : K) (s : LruCache K V)
      → IsHeld s
      → let (result, s') = get key s in
        (result ≡ lookup key (view s)) × IsHeld s' × (view s' ≡ touch key result (view s))
  unfolding get new_cache
  get_lem key s inv = elim (Option-cases (s.values key)) [
    | inl e ↦
        let none_found = lookup-absent (λ r. s.node r) s.logiclists key (absent-key key s inv e) in
        rw (e, get) (sym none_found, inv, refl)
    | inr (p, e) ↦
        let v = (s.node p).1 in
        let (but, same) = present-IsHeldBut key v p s inv e in
        let t = record (new_cache key v s) { logiclists = remove p s.logiclists } in
        let next_is : (s.next == s.next) ≡ true = ground arith in
        let (held, newest) = push_lem key v s.next s.used t but (rw next_is refl) in
        let value =
          lookup-map (λ r. s.node r) s.logiclists p key (held-key key p s inv e)
            (inv.1 key p e).0 in
        rw (e, get) (sym value, held, newest ∙ ap (λ l. (key, v) ∷ l) same)
  ]
