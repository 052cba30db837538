-- ===== src/Cache/Types.antt =====
-- cache.h: `LRUCache`. Cache nodes stand in a store, from addresses to a key and a value, in which `new`
-- takes the next address; what is deleted is not modelled. `std::unordered_map` is a function with the
-- number of its keys, `std::list` a list of addresses.
use xteam.Prelude.{
  ℕ, zero, suc, ◌+◌, ◌-◌, ◌≡◌, ◌↔◌, Bool, true, false, Option, none, some, List, [], ◌∷◌, leb, ◌==◌,
  if◌then◌else◌, ◌>>=◌,
}

-- `==` of the keys.
pub record Key (K : Type 0) : Type 0 where
  pub eq : K → K → Bool
  pub eq_iff : (a b : K) → (eq a b ≡ true) ↔ (a ≡ b)

pub record LruCache (K V : Type 0) : Type 0 where
  -- the store, and the address that `new` takes next
  pub node : ℕ → K × V
  pub next : ℕ
  -- `values_`, and its size
  pub values : K → Option ℕ
  pub size : ℕ
  -- `logiclists_`, the newest first
  pub logiclists : List ℕ
  pub max_capacity : ℕ
  pub used : ℕ

-- `std::list::remove`
unfoldable pub remove : ℕ → List ℕ → List ℕ
remove p [] = []
remove p (r ∷ rs) = if r == p then remove p rs else r ∷ remove p rs

-- `std::list::pop_back`
unfoldable pub pop_back : {A : Type 0} → List A → List A
pop_back [] = []
pop_back (x ∷ []) = []
pop_back (x ∷ y ∷ xs) = x ∷ pop_back (y ∷ xs)

-- `std::list::back`
unfoldable pub back : {A : Type 0} → List A → Option A
back [] = none
back (x ∷ []) = some x
back (x ∷ y ∷ xs) = back (y ∷ xs)

abbrev pub is_some : {A : Type 0} → Option A → Bool
is_some none = false
is_some (some a) = true

-- The list's first address is `p`.
abbrev pub is_front : ℕ → List ℕ → Bool
is_front p [] = false
is_front p (r ∷ rs) = r == p

module _ {K V : Type 0} ⦃k : Key K⦄ where
  -- `new Cache(key, value)`, at the address that was next.
  unfoldable pub new_cache : K → V → LruCache K V → LruCache K V
  new_cache key value s = record s {
    node = λ p. if p == s.next then (key, value) else s.node p;
    next = s.next + 1;
  }

  -- `values_[key] = p`
  unfoldable pub set_value : K → ℕ → LruCache K V → LruCache K V
  set_value key p s = record s {
    values = λ x. if k.eq x key then some p else s.values x;
    size = if is_some (s.values key) then s.size else s.size + 1;
  }

  -- `values_.erase(key)`
  unfoldable pub erase : K → LruCache K V → LruCache K V
  erase key s = record s {
    values = λ x. if k.eq x key then none else s.values x;
    size = if is_some (s.values key) then s.size - 1 else s.size;
  }

  -- `Get`: the value, where there is one.
  unfoldable pub get : K → LruCache K V → Option V × LruCache K V
  unfolding new_cache set_value remove
  get key s = elim (s.values key) [
    | none ↦ (none, s)
    | some p ↦
        let v = (s.node p).1 in
        let s' = new_cache key v s in
        (some v, set_value key s.next (record s' { logiclists = s.next ∷ remove p s.logiclists }))
  ]

  -- A round of `Evict`; `none` is `back` of a list that is empty.
  unfoldable pub evict_one : LruCache K V → Option (LruCache K V)
  unfolding back pop_back erase
  evict_one s = back s.logiclists >>= λ p.
      (let s' = erase (s.node p).0 s in
        some (record s' { logiclists = pop_back s.logiclists; used = s.used - 1 }))

  -- `Evict`, which runs one round more than the number it is given.
  unfoldable pub evict : ℕ → LruCache K V → Option (LruCache K V)
  unfolding evict_one
  evict zero s = evict_one s
  evict (suc count) s = evict_one s >>= λ s'. evict count s'

  -- The end of `Set`, for a new node.
  unfoldable pub add_node : K → V → LruCache K V → Option (LruCache K V)
  unfolding new_cache evict set_value
  add_node key value s =
      let s' = new_cache key value s in
      (if leb s.max_capacity s.size then evict (s.size - s.max_capacity) s' else some s') >>= λ t.
      some
        (set_value key s.next (record t { logiclists = s.next ∷ t.logiclists; used = t.used + 1 }))

  -- `it->second->value = value`
  unfoldable pub assign : ℕ → V → LruCache K V → LruCache K V
  assign p value s = record s { node = λ r. if r == p then ((s.node p).0, value) else s.node r }

  -- `Set`
  unfoldable pub set_cache : K → V → LruCache K V → Option (LruCache K V)
  unfolding add_node assign remove
  set_cache key value s = elim (s.values key) [
    | none ↦ add_node key value s
    | some p ↦
        let s' = assign p value s in
        if is_front p s.logiclists
        then some s'
        else add_node key value (record s' { logiclists = remove p s.logiclists })
  ]
