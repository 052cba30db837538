-- ===== src/Cache/Tests.antt =====
-- cache.h: runs of the caches with numbers as keys.
use xteam.Prelude.{
  ℕ, ◌≤◌, ◌≡◌, ◌≢◌, refl, ap, Option, none, some, List, [], ◌∷◌, arith, leb, ◌==◌, if◌then◌else◌,
  ==_iff, ◌>>=◌,
}
use xteam.Cache.Frequencies.{LfuCache, IsCounted, lfu_get, lfu_set, lfu_set-get}
use xteam.Cache.Types.{Key, LruCache, get, set_cache}
use xteam.Cache.Held.{view, IsHeld}
use xteam.Cache.Lru.{lookup, touch, without, newest_is, get_lem}
use xteam.Cache.Setting.{pushed, set_cache_lem}

instance abbrev number_key : Key ℕ
number_key = record { eq = λ a b. a == b; eq_iff = ==_iff }

abbrev empty : ℕ → LruCache ℕ ℕ
empty n = record {
  node = λ p. (0, 0);
  next = 0;
  values = λ x. none;
  size = 0;
  logiclists = [];
  max_capacity = n;
  used = 0;
}

abbrev entries : Option (LruCache ℕ ℕ) → List (ℕ × ℕ)
entries none = []
entries (some s) = view s

set_run :
    entries (set_cache 1 10 (empty 2) >>= set_cache 2 20 >>= set_cache 3 30)
    ≡ (3, 30) ∷ (2, 20) ∷ []
unfolding set_cache
set_run = refl

-- To set a key that is there, and not the newest, on a full cache drops another key.
set_again_run :
    entries (set_cache 1 10 (empty 2) >>= set_cache 2 20 >>= set_cache 1 11) ≡ (1, 11) ∷ []
unfolding set_cache
set_again_run = refl

abbrev one : LruCache ℕ ℕ
one = record {
  node = λ p. (7, 70);
  next = 1;
  values = λ x. if x == 7 then some 0 else none;
  size = 1;
  logiclists = 0 ∷ [];
  max_capacity = 1;
  used = 1;
}

one-found : (x p : ℕ) → (if x == 7 then some 0 else none) ≡ some p → (0 ≡ p) × (7 ≡ x)
one-found x p v = ground arith

one-IsHeld : IsHeld one
one-IsHeld = (
  λ r m. (let same : 0 ≡ r = ground arith in (omega arith, ap some same)),
  λ x p v. (let (a, b) = one-found x p v in (ground arith, b)),
  (refl, record {}),
  refl,
)

get_lem_example :
    let (result, s') = get 7 one in
    (result ≡ lookup 7 (view one)) × IsHeld s' × (view s' ≡ touch 7 result (view one))
get_lem_example = get_lem 7 one one-IsHeld

set_cache_lem_example :
    (t : LruCache ℕ ℕ) × (set_cache 8 80 one ≡ some t)
    × IsHeld t
    × (view t ≡ (
        if newest_is 8 (view one)
        then (8, 80) ∷ without 8 (view one)
        else pushed 8 80 (leb 1 1) (without 8 (view one))))
    × (t.max_capacity ≡ 1)
    × (t.size ≤ 1)
set_cache_lem_example = set_cache_lem 8 80 one one-IsHeld (omega arith) (omega arith)

abbrev lfu_empty : LfuCache ℕ ℕ
lfu_empty = record {
  node = λ p. (0, 0);
  next = 0;
  values = λ x. none;
  size = 0;
  counts = λ x. none;
  frequencies = [];
  max_capacity = 2;
  used = 0;
}

abbrev frequencies_of : Option (LfuCache ℕ ℕ) → List (ℕ × List ℕ)
frequencies_of none = []
frequencies_of (some s) = s.frequencies

-- The third key takes the place of the second, since the first was asked for.
lfu_run :
    frequencies_of (lfu_set 1 10 lfu_empty >>= lfu_set 2 20 >>= lfu_get 1 >>= λ r. lfu_set 3 30 r.1)
    ≡ (1, 2 ∷ []) ∷ (2, 0 ∷ []) ∷ []
unfolding lfu_set lfu_get
lfu_run = refl

abbrev lfu_one : LfuCache ℕ ℕ
lfu_one = record {
  node = λ p. (7, 70);
  next = 1;
  values = λ x. if x == 7 then some 0 else none;
  size = 1;
  counts = λ x. if x == 7 then some 1 else none;
  frequencies = (1, 0 ∷ []) ∷ [];
  max_capacity = 2;
  used = 1;
}

lfu_one-IsCounted : IsCounted lfu_one
lfu_one-IsCounted = ((7, refl), record {})

no_second : (x : ℕ) → lfu_one.counts x ≢ some 2
no_second x e = ground arith

lfu_set-get_example :
    (s' : LfuCache ℕ ℕ) × (lfu_set 7 71 lfu_one ≡ some s')
    × (s'.node 0 ≡ (7, 71))
    × (s'.counts 7 ≡ some 2)
    × (s'.values ≡ lfu_one.values)
    × (s'.frequencies ≡ lfu_one.frequencies)
    × (lfu_get 7 s' ≡ none)
lfu_set-get_example = lfu_set-get 7 71 0 1 lfu_one refl refl lfu_one-IsCounted no_second
