-- ===== src/Cache/Setting.antt =====
-- cache.h: `Set` of `LRUCache`.
use xteam.Prelude.{
  ℕ, ◌+◌, ◌-◌, ◌≤◌, ◌<◌, ◌≡◌, refl, sym, ap, ◌∙◌, inl, inr, Bool, true, false, some, List, [], ◌∷◌,
  map, arith, leb, ◌==◌, if◌then◌else◌, ==_iff, Bool-cases, Option-cases, length,
}
use mathlib.Core.Path.{subst}
use xteam.Cache.Types.{
  Key, LruCache, remove, pop_back, is_front, new_cache, set_value, evict, add_node, assign,
  set_cache,
}
use xteam.Cache.Members.{member, IsDistinct, member-remove}
use xteam.Cache.Held.{view, map_agree, IsHeld, IsHeldBut, evict_one_lem, push_lem}
use xteam.Cache.Lru.{
  without, newest_is, held-key, absent-key, absent-IsHeldBut, present-IsHeldBut, map-remove,
}

left_over :
    (p : ℕ) (rs : List ℕ) → is_front p rs ≡ false → member p rs ≡ true → 0 < length (remove p rs)
unfolding remove
left_over p [] h m = absurd (ground arith)
left_over p (r ∷ rs) h m = rw h (omega arith)

module _ {K V : Type 0} ⦃k : Key K⦄ where
  -- The new node's key and value go in front, where the cache is full in place of the oldest.
  abbrev pub pushed : K → V → Bool → List (K × V) → List (K × V)
  pushed key value full l = (key, value) ∷ (if full then pop_back l else l)

  add_node_lem :
      (key : K) (value : V) (s : LruCache K V)
      → IsHeldBut key s.next (new_cache key value s)
      → s.size ≤ s.max_capacity
      → (leb s.max_capacity s.size ≡ true → 0 < length s.logiclists)
      → (t : LruCache K V) × (add_node key value s ≡ some t)
        × IsHeld t
        × (view t ≡ pushed key value (leb s.max_capacity s.size) (view (new_cache key value s)))
        × (t.max_capacity ≡ s.max_capacity)
        × (t.size ≤ s.max_capacity)
  unfolding add_node new_cache evict set_value
  add_node_lem key value s but fits some_left =
      let s' = new_cache key value s in
      let next_is : (s.next == s.next) ≡ true = ground arith in
      let count : s.size - s.max_capacity ≡ 0 = omega arith in
      elim (Bool-cases (leb s.max_capacity s.size)) [
        | inl e ↦
            let (t, run, but', less, same, cap, size) =
              evict_one_lem key s.next s' but (some_left e) in
            let (held, newest) =
              push_lem key value s.next (t.used + 1) t but' (same s.next ∙ rw next_is refl) in
            rw e (
              rw count (
                rw run (
                  set_value key s.next
                      (record t { logiclists = s.next ∷ t.logiclists; used = t.used + 1 }),
                  refl,
                  held,
                  newest ∙ ap (λ l. (key, value) ∷ l) less,
                  cap,
                  ground arith,
                )))
        | inr e ↦
            let (held, newest) = push_lem key value s.next (s'.used + 1) s' but (rw next_is refl) in
            rw e (
              set_value key s.next
                  (record s' { logiclists = s.next ∷ s'.logiclists; used = s'.used + 1 }),
              refl,
              held,
              newest,
              refl,
              ground arith,
            )
      ]

  -- The assignment through the pointer changes no key.
  assign-IsHeld :
      (key : K) (value : V) (p : ℕ) (s : LruCache K V)
      → IsHeld s
      → s.values key ≡ some p
      → IsHeld (assign p value s) × (without key (view (assign p value s)) ≡ without key (view s))
  unfolding assign
  assign-IsHeld key value p s inv here =
      let (held, found, distinct, size) = inv in
      let keys : (r : ℕ) → ((assign p value s).node r).0 ≡ (s.node r).0 = λ r.
        elim (Bool-cases (r == p)) [
          | inl e ↦ rw e (ap (λ a. (s.node a).0) (sym ((==_iff r p).0 e)))
          | inr e ↦ rw e refl
        ] in
      let only = held-key key p s inv here in
      (
        (
          λ r m.
              let (older, value_of) = held r m in
              (older, subst (λ x. s.values x ≡ some r) (sym (keys r)) value_of),
          λ x r v. (let (m, is) = found x r v in (m, keys r ∙ is)),
          distinct,
          size,
        ),
        sym (
              map-remove (λ r. (assign p value s).node r) s.logiclists p key
                (λ r m. only r m ∙ ap (λ x. k.eq x key) (sym (keys r))))
            ∙ map_agree (λ r. (assign p value s).node r) (λ r. s.node r) (remove p s.logiclists)
                (λ r m. ground (arith, member-remove r p s.logiclists))
            ∙ map-remove (λ r. s.node r) s.logiclists p key only,
      )

  without-absent :
      (f : ℕ → K × V) (rs : List ℕ) (key : K)
      → ((r : ℕ) → member r rs ≡ true → k.eq (f r).0 key ≡ false)
      → (without key (map f rs) ≡ map f rs) × (newest_is key (map f rs) ≡ false)
  without-absent f [] key differ = (refl, refl)
  without-absent f (r ∷ rs) key differ =
      let here = differ r (ground arith) in
      let (rest, first) = without-absent f rs key (λ q h. differ q (ground arith)) in
      rw here (ap (λ l. f r ∷ l) rest, refl)

  newest-is_front :
      (f : ℕ → K × V) (rs : List ℕ) (p : ℕ) (key : K)
      → ((r : ℕ) → member r rs ≡ true → (r == p) ≡ k.eq (f r).0 key)
      → newest_is key (map f rs) ≡ is_front p rs
  newest-is_front f [] p key only = refl
  newest-is_front f (r ∷ rs) p key only = sym (only r (ground arith))

  -- Where the node stands in front, what follows it has other keys.
  front_view :
      (f : ℕ → K × V) (rs : List ℕ) (p : ℕ) (key : K)
      → ((r : ℕ) → member r rs ≡ true → (r == p) ≡ k.eq (f r).0 key)
      → IsDistinct rs
      → is_front p rs ≡ true
      → map f rs ≡ f p ∷ without key (map f rs)
  front_view f [] p key only d h = absurd (ground arith)
  front_view f (r ∷ rs) p key only (fresh, d) h =
      let same : r ≡ p = (==_iff r p).0 h in
      let here : k.eq (f r).0 key ≡ true = sym (only r (ground arith)) ∙ h in
      let (rest, first) = without-absent f rs key (λ q m.
        let differ : (q == p) ≡ false = elim (Bool-cases (q == p)) [
          | inl e ↦
              let twice : q ≡ r = (==_iff q p).0 e ∙ sym same in
              let inside = subst (λ a. member a rs ≡ true) twice m in absurd (ground arith)
          | inr e ↦ e
        ] in
        sym (only q (ground arith)) ∙ differ) in
      rw here (rw rest (ap (λ a. f a ∷ map f rs) same))

  -- On a cache that may hold something, and does not hold more than it may, where the map and the list
  -- agree, `Set` returns, and they agree again. The key goes in front with its value, and is nowhere
  -- else; where the cache is full the oldest of the others goes, except where the key was in front.
  pub set_cache_lem :
      (key : K) (value : V) (s : LruCache K V)
      → IsHeld s
      → 0 < s.max_capacity
      → s.size ≤ s.max_capacity
      → (t : LruCache K V) × (set_cache key value s ≡ some t)
        × IsHeld t
        × (view t ≡ (
            if newest_is key (view s)
            then (key, value) ∷ without key (view s)
            else pushed key value (leb s.max_capacity s.size) (without key (view s))))
        × (t.max_capacity ≡ s.max_capacity)
        × (t.size ≤ s.max_capacity)
  unfolding set_cache
  set_cache_lem key value s inv room fits = elim (Option-cases (s.values key)) [
    | inl e ↦
        let (but, same) = absent-IsHeldBut key value s inv e in
        let (all, first) =
          without-absent (λ r. s.node r) s.logiclists key (absent-key key s inv e) in
        let (t, run, held, newest, cap, size) =
          add_node_lem key value s but fits (λ full. ground (arith, inv.3)) in
        rw (e, set_cache)
          (
            t,
            run,
            held,
            newest
                ∙ ap (λ l. pushed key value (leb s.max_capacity s.size) l) (same ∙ sym all)
                ∙ rw first refl,
            cap,
            size,
          )
    | inr (p, e) ↦
        let s1 = assign p value s in
        let (inv1, others) = assign-IsHeld key value p s inv e in
        let front_is =
          newest-is_front (λ r. s.node r) s.logiclists p key (held-key key p s inv e) in
        let key_of : (s.node p).0 ≡ key = (inv.1 key p e).1 in
        elim (Bool-cases (is_front p s.logiclists)) [
          | inl f ↦
              let whole =
                front_view (λ r. s1.node r) s.logiclists p key (held-key key p s1 inv1 e) inv.2 f in
              let at_p : s1.node p ≡ (key, value) =
                let p_is : (p == p) ≡ true = ground arith in
                rw p_is (ap (λ x. (x, value)) key_of) in
              rw (e, set_cache)
                (rw f (
                  s1,
                  refl,
                  inv1,
                  whole
                      ∙ ap (λ c. c ∷ without key (view s1)) at_p
                      ∙ ap (λ l. (key, value) ∷ l) others
                      ∙ rw (front_is ∙ f) refl,
                  refl,
                  fits,
                ))
          | inr f ↦
              let s2 = record s1 { logiclists = remove p s1.logiclists } in
              let (but, same) = present-IsHeldBut key value p s1 inv1 e in
              let (t, run, held, newest, cap, size) =
                add_node_lem key value s2 but fits
                  (λ full. left_over p s.logiclists f (inv.1 key p e).0) in
              rw (e, set_cache)
                (rw f (
                  t,
                  run,
                  held,
                  newest
                      ∙ ap (λ l. pushed key value (leb s.max_capacity s.size) l) (same ∙ others)
                      ∙ rw (front_is ∙ f) refl,
                  cap,
                  size,
                ))
        ]
  ]
