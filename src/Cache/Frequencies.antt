-- ===== src/Cache/Frequencies.antt =====
-- cache.h: `LFUCache`. `std::map` is a list of frequencies, the least first, with their lists of nodes;
-- `none` is an exception of `at`, or the begin of what is empty.
use xteam.Prelude.{
  ℕ, zero, suc, ◌+◌, ◌-◌, ◌≡◌, ◌≢◌, arith, refl, ap, ◌∙◌, inl, inr, All, Bool-cases, ==_iff, true,
  Option, none, some, List, [], ◌∷◌, ◌++◌, ltb, leb, ◌==◌, if◌then◌else◌, length, ◌>>=◌,
}
use xteam.Cache.Types.{Key, remove, is_some}

pub record LfuCache (K V : Type 0) : Type 0 where
  pub node : ℕ → K × V
  pub next : ℕ
  -- `values_`, and its size
  pub values : K → Option ℕ
  pub size : ℕ
  -- `counts_`
  pub counts : K → Option ℕ
  -- `frequencies_`
  pub frequencies : List (ℕ × List ℕ)
  pub max_capacity : ℕ
  pub used : ℕ

-- `std::map::at`
unfoldable pub list_at : ℕ → List (ℕ × List ℕ) → Option (List ℕ)
list_at f [] = none
list_at f ((g, rs) ∷ fs) = if g == f then some rs else list_at f fs

-- The entry of a frequency is set to a list, or comes in at its place.
unfoldable pub put_list : ℕ → List ℕ → List (ℕ × List ℕ) → List (ℕ × List ℕ)
put_list f rs [] = (f, rs) ∷ []
put_list f rs ((g, qs) ∷ fs) =
    if g == f
    then (f, rs) ∷ fs
    else if ltb f g
    then (f, rs) ∷ (g, qs) ∷ fs
    else (g, qs) ∷ put_list f rs fs

-- `std::map::erase`
unfoldable pub erase_list : ℕ → List (ℕ × List ℕ) → List (ℕ × List ℕ)
erase_list f [] = []
erase_list f ((g, rs) ∷ fs) = if g == f then fs else (g, rs) ∷ erase_list f fs

-- `frequencies_.at(f)->remove(p)`, and `removeIfListEmpty`
unfoldable pub take_out : ℕ → ℕ → List (ℕ × List ℕ) → Option (List (ℕ × List ℕ))
unfolding list_at put_list erase_list remove
take_out f p fs = list_at f fs >>= λ rs.
    (let rest = remove p rs in
      some (if length rest == 0 then erase_list f fs else put_list f rest fs))

-- A new list where the frequency has none, and `push_back`.
unfoldable pub push_back : ℕ → ℕ → List (ℕ × List ℕ) → List (ℕ × List ℕ)
unfolding list_at put_list
push_back f p fs = elim (list_at f fs) [
  | none ↦ put_list f (p ∷ []) fs
  | some rs ↦ put_list f (rs ++ p ∷ []) fs
]

-- The oldest node of the least frequency.
abbrev least_used : List (ℕ × List ℕ) → Option (ℕ × ℕ)
least_used [] = none
least_used ((f, []) ∷ fs) = none
least_used ((f, p ∷ rs) ∷ fs) = some (f, p)

module _ {K V : Type 0} ⦃k : Key K⦄ where
  -- `Get`: the value, where there is one.
  unfoldable pub lfu_get : K → LfuCache K V → Option (Option V × LfuCache K V)
  unfolding take_out push_back
  lfu_get key s = elim (s.values key) [
    | none ↦ some (none, s)
    | some p ↦ s.counts key >>= λ f.
        (take_out f p s.frequencies >>= λ fs. some (
          some (s.node p).1,
          record s {
            frequencies = push_back (f + 1) p fs;
            counts = λ x. if k.eq x key then some (f + 1) else s.counts x;
          },
        ))
  ]

  -- A round of `Evict`
  unfoldable pub lfu_evict_one : LfuCache K V → Option (LfuCache K V)
  unfolding take_out
  lfu_evict_one s = least_used s.frequencies >>= λ fp.
      (let key = (s.node fp.1).0 in
        take_out fp.0 fp.1 s.frequencies >>= λ fs. some (record s {
          frequencies = fs;
          values = λ x. if k.eq x key then none else s.values x;
          size = if is_some (s.values key) then s.size - 1 else s.size;
          counts = λ x. if k.eq x key then none else s.counts x;
          used = s.used - 1;
        }))

  -- `Evict`, which runs one round more than the number it is given.
  unfoldable pub lfu_evict : ℕ → LfuCache K V → Option (LfuCache K V)
  unfolding lfu_evict_one
  lfu_evict zero s = lfu_evict_one s
  lfu_evict (suc count) s = lfu_evict_one s >>= λ t. lfu_evict count t

  -- `Set`
  unfoldable pub lfu_set : K → V → LfuCache K V → Option (LfuCache K V)
  unfolding lfu_evict push_back
  lfu_set key value s = elim (s.values key) [
    | some p ↦ s.counts key >>= λ f. some (record s {
      node = λ r. if r == p then ((s.node p).0, value) else s.node r;
      counts = λ x. if k.eq x key then some (f + 1) else s.counts x;
    })
    | none ↦
        let q = s.next in
        let s' = record s { node = λ p. if p == q then (key, value) else s.node p; next = q + 1 } in
        (if leb s.max_capacity s.size then lfu_evict (s.size - s.max_capacity) s' else some s')
        >>= λ t. some (record t {
          values = λ x. if k.eq x key then some q else t.values x;
          size = if is_some (t.values key) then t.size else t.size + 1;
          counts = λ x. if k.eq x key then some 1 else t.counts x;
          frequencies = push_back 1 q t.frequencies;
          used = t.used + 1;
        })
  ]

  -- Each frequency that has a list is the count of some key.
  abbrev pub IsCounted : LfuCache K V → Type 0
  IsCounted s = All (λ entry. (x : K) × (s.counts x ≡ some entry.0)) s.frequencies

  list_at-counted :
      (s : LfuCache K V) (g : ℕ) (fs : List (ℕ × List ℕ)) (rs : List ℕ)
      → All (λ entry. (x : K) × (s.counts x ≡ some entry.0)) fs
      → list_at g fs ≡ some rs
      → (x : K) × (s.counts x ≡ some g)
  unfolding list_at
  list_at-counted s g [] rs h e = absurd (cc)
  list_at-counted s g ((f, qs) ∷ fs) rs (here, h) e = elim (Bool-cases (f == g)) [
    | inl q ↦ let same : f ≡ g = ground (arith, ==_iff f g) in (here.0, here.1 ∙ ap some same)
    | inr q ↦ list_at-counted s g fs rs h (rw q at e)
  ]

  -- A frequency that is no key's count has no list.
  list_at-none :
      (s : LfuCache K V) (g : ℕ) (o : Option (List ℕ))
      → IsCounted s
      → ((x : K) → s.counts x ≢ some g)
      → list_at g s.frequencies ≡ o
      → o ≡ none
  list_at-none s g none h free e = refl
  list_at-none s g (some rs) h free e =
      let (x, count) = list_at-counted s g s.frequencies rs h e in absurd (free x count)

  -- Where a key is there, with the count `f`, each frequency with a list is the count of some key, and no
  -- key has the count `f + 1`: `Set` of the key ends, its node has the new value and its count is one
  -- more, while the map and the lists of nodes are as they were; and `Get` of the key throws then.
  pub lfu_set-get :
      (key : K) (value : V) (p f : ℕ) (s : LfuCache K V)
      → s.values key ≡ some p
      → s.counts key ≡ some f
      → IsCounted s
      → ((x : K) → s.counts x ≢ some (f + 1))
      → (s' : LfuCache K V) × (lfu_set key value s ≡ some s')
        × (s'.node p ≡ ((s.node p).0, value))
        × (s'.counts key ≡ some (f + 1))
        × (s'.values ≡ s.values)
        × (s'.frequencies ≡ s.frequencies)
        × (lfu_get key s' ≡ none)
  unfolding lfu_set lfu_get take_out
  lfu_set-get key value p f s here count counted free =
      let same : k.eq key key ≡ true = (k.eq_iff key key).1 refl in
      let same_node : (p == p) ≡ true = ground (arith, ==_iff p p) in
      let no_list : list_at (f + 1) s.frequencies ≡ none =
        list_at-none s (f + 1) (list_at (f + 1) s.frequencies) counted free refl in
      let s' : LfuCache K V = record s {
        node = λ r. if r == p then ((s.node p).0, value) else s.node r;
        counts = λ x. if k.eq x key then some (f + 1) else s.counts x;
      } in
      (
        s',
        rw (here, lfu_set) (rw count refl),
        rw same_node refl,
        rw same refl,
        refl,
        refl,
        rw (here, lfu_get) (rw same (rw no_list refl)),
      )
