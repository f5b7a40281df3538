-- ===== src/LruCache/Laws.antt =====
-- The byte count and the keys of the cache through get, put and invalidate.
use mctrader_data.Prelude.{
  str_eq, eq_iff, if◌then◌else◌, ◌+◌, ◌≤◌, String, ◌≡◌, ◌⊎◌, inl, inr, refl, ap, subst, ◌∙◌, none,
  some, [], ◌∷◌, ◌++◌, arith, length, Option-cases,
}
use mctrader_data.Prelude.Dict.{Dict, string_eq, lookup, erase, lookup-erase_self, lookup-erase}
use mctrader_data.Prelude.Ordered.{
  Distinct, move_to_end, total-append, total-erase, Distinct-erase, Distinct-snoc, erase_absent,
  lookup-move_to_end, lookup-move,
}
use mctrader_data.LruCache.{Bytes, LruCache, lru_get, remove, evict, store, lru_put, lru_invalidate}
use mctrader_data.LruCache.Evict.{
  held, IsLongestFit, evict-held, Distinct-evict, lookup-evict, evict-IsLongestFit,
}

-- The count is the number of bytes that are held, and no key is held twice.
pub record IsAccounted (c : LruCache) : Type 0 where
  pub exact : c.current_bytes ≡ held c.cache
  pub distinct : Distinct c.cache

-- The moved entry is counted once.
held-move_to_end :
    (key : String) (bytes : Bytes) (d : Dict String Bytes)
    → held (move_to_end key bytes d) ≡ held (erase key d) + length bytes
held-move_to_end key bytes d = omega (arith, total-append length (erase key d) ((key, bytes) ∷ []))

Distinct-move_to_end :
    (key : String) (bytes : Bytes) (d : Dict String Bytes)
    → Distinct d
    → Distinct (move_to_end key bytes d)
Distinct-move_to_end key bytes d u =
    Distinct-snoc key bytes (erase key d) (Distinct-erase key d u) (lookup-erase_self key d)

pub remove-IsAccounted : (key : String) (c : LruCache) → IsAccounted c → IsAccounted (remove key c)
unfolding remove
remove-IsAccounted key c h = elim (Option-cases (lookup key c.cache)) [
  | inl gone ↦ rw (gone, remove) h
  | inr (bytes, found) ↦
      rw (found, remove)
        (record {
          exact = omega (arith, h.exact, total-erase length key bytes c.cache h.distinct found);
          distinct = Distinct-erase key c.cache h.distinct;
        })
]

remove_entries : (key : String) (c : LruCache) → (remove key c).cache ≡ erase key c.cache
unfolding remove
remove_entries key c = ground (arith, erase_absent key c.cache)

pub get-IsAccounted : (key : String) (c : LruCache) → IsAccounted c → IsAccounted (lru_get key c).1
unfolding lru_get
get-IsAccounted key c h = elim (Option-cases (lookup key c.cache)) [
  | inl gone ↦ rw (gone, lru_get) h
  | inr (bytes, found) ↦
      rw (found, lru_get)
        (record {
          exact = omega (
            arith,
            h.exact,
            held-move_to_end key bytes c.cache,
            total-erase length key bytes c.cache h.distinct found,
          );
          distinct = Distinct-move_to_end key bytes c.cache h.distinct;
        })
]

-- What a put leaves.
pub record Puts (key : String) (bytes : Bytes) (c c' : LruCache) : Type 0 where
  pub accounted : IsAccounted c'
  pub left : Dict String Bytes
  pub entries : c'.cache ≡ left ++ (key, bytes) ∷ []
  pub evicts : IsLongestFit (length bytes) c.max_bytes (erase key c.cache) left
  pub found : lookup key c'.cache ≡ some bytes
  pub budget : (c'.current_bytes ≤ c'.max_bytes) ⊎ (c'.cache ≡ (key, bytes) ∷ [])

-- The new entry, stored behind what the loop leaves of entries without its key.
stored-Puts :
    (key : String) (bytes : Bytes) (c r : LruCache)
    → r.max_bytes ≡ c.max_bytes
    → r.cache ≡ erase key c.cache
    → IsAccounted r
    → Puts key bytes c
        (store key bytes (evict (length bytes) c.max_bytes r.current_bytes r.cache) r)
unfolding store
stored-Puts key bytes c r same_max others h =
    let n = length bytes in
    let left = (evict n c.max_bytes (held r.cache) r.cache).1 in
    let absent : lookup key left ≡ none =
      lookup-evict n c.max_bytes (held r.cache) key r.cache
        (rw others (lookup-erase_self key c.cache)) in
    let entries : move_to_end key bytes left ≡ left ++ (key, bytes) ∷ [] =
      ap (λ d. d ++ (key, bytes) ∷ []) (erase_absent key left absent) in
    let fit : IsLongestFit n c.max_bytes r.cache left = evict-IsLongestFit n c.max_bytes r.cache in
    rw h.exact (record {
      accounted = record {
        exact = omega (
          arith,
          evict-held n c.max_bytes r.cache,
          held-move_to_end key bytes left,
          ap held (erase_absent key left absent),
        );
        distinct =
            Distinct-move_to_end key bytes left
              (Distinct-evict n c.max_bytes (held r.cache) r.cache h.distinct);
      };
      left = left;
      entries = entries;
      evicts = subst (λ d. IsLongestFit n c.max_bytes d left) others fit;
      found = lookup-move_to_end key bytes left;
      budget = elim fit.fits [
        | inl room ↦ inl (omega (arith, same_max, evict-held n c.max_bytes r.cache))
        | inr alone ↦ inr (entries ∙ ap (λ d. d ++ (key, bytes) ∷ []) alone)
      ];
    })

max_bytes-remove : (key : String) (c : LruCache) → (remove key c).max_bytes ≡ c.max_bytes
unfolding remove
max_bytes-remove key c = ground arith

-- From an exact count and distinct keys, a put keeps both, its entry is the most recent and is
-- found, and of the other keys' entries it leaves the longest recent end that fits beside the new
-- bytes: the count is then within the budget, or the new entry is the only one.
pub lru_put-Puts :
    (key : String) (bytes : Bytes) (c : LruCache)
    → IsAccounted c
    → Puts key bytes c (lru_put key bytes c)
unfolding lru_put
lru_put-Puts key bytes c h =
    stored-Puts key bytes c (remove key c) (max_bytes-remove key c) (remove_entries key c)
      (remove-IsAccounted key c h)

got : (key : String) (c : LruCache) → (lru_get key c).0 ≡ lookup key c.cache
unfolding lru_get
got key c = ground arith

others-lru_get :
    (key other : String) (c : LruCache)
    → lookup other (lru_get key c).1.cache ≡ lookup other c.cache
unfolding lru_get
others-lru_get key other c = elim (Option-cases (lookup key c.cache)) [
  | inl gone ↦ rw (gone, lru_get) refl
  | inr (bytes, found) ↦
      rw (found, lru_get) (ground (arith, lookup-move key other bytes c.cache, eq_iff key other))
]

-- From an exact count and distinct keys, a get gives what is stored and keeps both, an invalidation
-- keeps both and removes the key, and neither touches the other keys.
pub get_and_invalidate :
    (key other : String) (c : LruCache)
    → IsAccounted c
    → ((lru_get key c).0 ≡ lookup key c.cache)
      × IsAccounted (lru_get key c).1
      × (lookup other (lru_get key c).1.cache ≡ lookup other c.cache)
      × IsAccounted (lru_invalidate key c)
      × (lookup other (lru_invalidate key c).cache
          ≡ (if str_eq key other then none else lookup other c.cache))
unfolding lru_invalidate
get_and_invalidate key other c h = (
  got key c,
  get-IsAccounted key c h,
  others-lru_get key other c,
  remove-IsAccounted key c h,
  rw (remove_entries key c) (lookup-erase key other c.cache),
)
