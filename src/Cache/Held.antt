-- ===== src/Cache/Held.antt =====
-- cache.h: what the map and the list of `LRUCache` have to do with each other.
use xteam.Prelude.{
  ℕ, ◌+◌, ◌-◌, ◌<◌, ◌≡◌, refl, sym, ap, ◌∙◌, ◌≢◌, inl, inr, true, false, some, List, [], ◌∷◌, map,
  arith, ◌==◌, if◌then◌else◌, ==_iff, Bool-cases, length,
}
use xteam.Cache.Types.{Key, LruCache, pop_back, is_some, set_value, erase, evict_one}
use xteam.Cache.Members.{member, IsDistinct, back_lem}
use mathlib.Core.Path.{subst}

-- The keys and values, the newest first.
abbrev pub view : {K V : Type 0} → LruCache K V → List (K × V)
view s = map (λ p. s.node p) s.logiclists

pub map_agree :
    {A : Type 0} (f g : ℕ → A) (rs : List ℕ)
    → ((r : ℕ) → member r rs ≡ true → f r ≡ g r)
    → map f rs ≡ map g rs
map_agree f g [] same = refl
map_agree f g (r ∷ rs) same =
    let first = same r (ground arith) in
    let rest = map_agree f g rs (λ q h. same q (ground arith)) in rw first (rw rest refl)

pub map-pop_back :
    {A : Type 0} (f : ℕ → A) (rs : List ℕ) → map f (pop_back rs) ≡ pop_back (map f rs)
unfolding pop_back
map-pop_back f [] = refl
map-pop_back f (r ∷ []) = refl
map-pop_back f (r ∷ q ∷ rs) = ap (λ l. f r ∷ l) (map-pop_back f (q ∷ rs))

eq-false_sym : {K : Type 0} ⦃k : Key K⦄ (a b : K) → k.eq a b ≡ false → k.eq b a ≡ false
eq-false_sym ⦃k = k⦄ a b h = elim (Bool-cases (k.eq b a)) [
  | inl e ↦
      let same : b ≡ a = (k.eq_iff b a).0 e in
      let turned : k.eq a b ≡ true = (k.eq_iff a b).1 (sym same) in absurd (ground arith)
  | inr e ↦ e
]

some_inj : (a b : ℕ) → some a ≡ some b → a ≡ b
some_inj a b h = ground arith

module _ {K V : Type 0} ⦃k : Key K⦄ where
  -- The map leads from each key in the list to its node, and nowhere else; nodes are in the list once,
  -- and older than what `new` gives next; the map has as many keys as the list has nodes.
  abbrev pub IsHeld : LruCache K V → Type 0
  IsHeld s =
      ((r : ℕ) → member r s.logiclists ≡ true → (r < s.next) × (s.values (s.node r).0 ≡ some r))
      × ((x : K) (p : ℕ)
          → s.values x ≡ some p
          → (member p s.logiclists ≡ true) × ((s.node p).0 ≡ x))
      × IsDistinct s.logiclists
      × (s.size ≡ length s.logiclists)

  -- The same but for `key`, which is in no node of the list; `q` is the address of its new node.
  abbrev pub IsHeldBut : K → ℕ → LruCache K V → Type 0
  IsHeldBut key q s =
      ((r : ℕ)
        → member r s.logiclists ≡ true
        → (r < q) × (s.values (s.node r).0 ≡ some r) × (k.eq (s.node r).0 key ≡ false))
      × ((x : K) (p : ℕ)
          → s.values x ≡ some p
          → k.eq x key ≡ false
          → (member p s.logiclists ≡ true) × ((s.node p).0 ≡ x))
      × IsDistinct s.logiclists
      × (s.size ≡ length s.logiclists + (if is_some (s.values key) then 1 else 0))
      × (s.next ≡ q + 1)

  pub evict_one_lem :
      (key : K) (q : ℕ) (s : LruCache K V)
      → IsHeldBut key q s
      → 0 < length s.logiclists
      → (t : LruCache K V) × (evict_one s ≡ some t)
        × IsHeldBut key q t
        × (view t ≡ pop_back (view s))
        × ((r : ℕ) → t.node r ≡ s.node r)
        × (t.max_capacity ≡ s.max_capacity)
        × (t.size + 1 ≡ s.size)
  unfolding evict_one erase
  evict_one_lem key q s (held, found, distinct, size, next) h =
      let (p, last, distinct', len, mem, gone) = back_lem s.logiclists distinct h in
      let here = held p (ground (arith, mem p)) in
      let other : (x : K) → k.eq x (s.node p).0 ≡ true → s.values x ≡ some p =
        λ x e. subst (λ y. s.values y ≡ some p) (sym ((k.eq_iff x (s.node p).0).0 e)) here.1 in
      let key_other : k.eq key (s.node p).0 ≡ false = eq-false_sym (s.node p).0 key here.2 in
      let known : is_some (s.values (s.node p).0) ≡ true = rw (here.1) refl in
      let t' = erase (s.node p).0 s in
      let t = record t' { logiclists = pop_back s.logiclists; used = s.used - 1 } in
      rw last (
        t,
        refl,
        (
          λ r m.
              let before = held r (ground (arith, mem r)) in
              let differ : k.eq (s.node r).0 (s.node p).0 ≡ false =
                elim (Bool-cases (k.eq (s.node r).0 (s.node p).0)) [
                  | inl e ↦ (let twice = other (s.node r).0 e in absurd (ground arith))
                  | inr e ↦ e
                ] in
              (before.0, rw differ before.1, before.2),
          λ x r v ne. elim (Bool-cases (k.eq x (s.node p).0)) [
            | inl e ↦ absurd (ground arith)
            | inr e ↦
                let (m, is) = found x r (rw e at v) ne in
                let not_p : r ≢ p = λ same.
                  let equal : x ≡ (s.node p).0 = sym is ∙ ap (λ a. (s.node a).0) same in
                  let contrary : k.eq x (s.node p).0 ≡ true = (k.eq_iff x (s.node p).0).1 equal in
                  absurd (ground arith) in
                (ground (arith, mem r), is)
          ],
          distinct',
          ground arith,
          next,
        ),
        map-pop_back (λ r. s.node r) s.logiclists,
        λ r. refl,
        refl,
        ground arith,
      )

  -- The new node in front, and in the map.
  pub push_lem :
      (key : K) (value : V) (q u : ℕ) (t : LruCache K V)
      → IsHeldBut key q t
      → t.node q ≡ (key, value)
      → let s = set_value key q (record t { logiclists = q ∷ t.logiclists; used = u }) in
        IsHeld s × (view s ≡ (key, value) ∷ view t)
  unfolding set_value
  push_lem key value q u t (held, found, distinct, size, next) new =
      let key_here : (t.node q).0 ≡ key = ap (λ c. c.0) new in
      let fresh : member q t.logiclists ≡ false = elim (Bool-cases (member q t.logiclists)) [
        | inl e ↦ (let older = (held q e).0 in absurd (omega arith))
        | inr e ↦ e
      ] in
      let reflexive : k.eq key key ≡ true = (k.eq_iff key key).1 refl in
      (
        (
          λ r m. elim (Bool-cases (q == r)) [
            | inl e ↦
                let same : q ≡ r = (==_iff q r).0 e in
                let equal : (t.node r).0 ≡ key = subst (λ a. (t.node a).0 ≡ key) same key_here in
                (omega arith, rw equal (rw reflexive (ap some same)))
            | inr e ↦
                let (older, value_of, differ) = held r (ground arith) in
                (omega arith, rw differ value_of)
          ],
          λ x r v. elim (Bool-cases (k.eq x key)) [
            | inl e ↦
                let same : q ≡ r = some_inj q r (rw e at v) in
                let equal : x ≡ key = (k.eq_iff x key).0 e in
                (ground arith, subst (λ a. (t.node a).0 ≡ x) same (key_here ∙ sym equal))
            | inr e ↦ let (m, is) = found x r (rw e at v) e in (ground arith, is)
          ],
          (fresh, distinct),
          ground arith,
        ),
        rw new refl,
      )
