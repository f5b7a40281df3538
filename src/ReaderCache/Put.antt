-- ===== src/ReaderCache/Put.antt =====
-- Gets and puts, with the byte count and the number of entries.
use mctrader_data.Prelude.{
  ℕ, suc, ◌+◌, ◌-◌, ◌≤◌, ◌<◌, String, ◌≡◌, refl, ap, inl, inr, Option, none, some, List, [], ◌∷◌,
  arith, ltb, leb, length, length-append, Bool-cases, Option-cases,
}
use mctrader_data.Prelude.Dict.{Dict, string_eq, lookup, erase, lookup-erase_self}
use mctrader_data.Prelude.Ordered.{
  total, Distinct, total-append, total-erase, Distinct-erase, Distinct-snoc, lookup-move_to_end,
  erase_absent,
}
use mctrader_data.ReaderCache.{
  CacheEntry, ReaderCache, miss, cache_get, evict_bytes, enforce_budget, enforce_capacity,
  fresh_entry, store_entry, put_new, cache_put,
}

abbrev pub held : Dict String CacheEntry → ℕ
held d = total (λ e. length e.value) d

-- The keys are distinct, the byte count is at least what is held, and there are at most as many
-- entries as the capacity.
pub record IsBounded (c : ReaderCache) : Type 0 where
  pub distinct : Distinct c.cache
  pub counted : held c.cache ≤ c.current_bytes
  pub few : length c.cache ≤ c.capacity

length-erase : (key : String) (d : Dict String CacheEntry) → length (erase key d) ≤ length d
unfolding erase
length-erase key [] = omega arith
length-erase key ((k, e) ∷ d) = ground (arith, length-erase key d)

length-erase_found :
    (key : String) (e : CacheEntry) (d : Dict String CacheEntry)
    → lookup key d ≡ some e
    → length (erase key d) + 1 ≤ length d
unfolding lookup erase
length-erase_found key e [] h = absurd (ground arith)
length-erase_found key e ((k, f) ∷ d) h =
    ground (arith, length-erase_found key e d, length-erase key d)

-- The parts that the two ends of a put share: the entry goes behind others without its key.
stored-IsBounded :
    (key : String) (value : List ℕ) (now n : ℕ) (c : ReaderCache) (d : Dict String CacheEntry)
    → Distinct d
    → held (erase key d) ≤ n
    → length (erase key d) + 1 ≤ c.capacity
    → IsBounded (store_entry key value now c (n, d))
unfolding store_entry fresh_entry
stored-IsBounded key value now n c d u h few = record {
  distinct = Distinct-snoc key _ (erase key d) (Distinct-erase key d u) (lookup-erase_self key d);
  counted =
      omega (
        arith,
        total-append (λ e. length e.value) (erase key d) ((key, fresh_entry value now) ∷ []),
      );
  few = omega (arith, length-append {0} (erase key d) ((key, fresh_entry value now) ∷ []));
}

-- A get, whether it finds an entry, finds none or drops one that has expired, keeps the keys
-- distinct, the byte count at least what is held, and the entries at most the capacity.
pub cache_get-IsBounded :
    (key : String) (now : ℕ) (c : ReaderCache) → IsBounded c → IsBounded (cache_get key now c).1
unfolding cache_get miss
cache_get-IsBounded key now c h = elim (Option-cases (lookup key c.cache)) [
  | inl gone ↦
      rw (gone, cache_get) (record { distinct = h.distinct; counted = h.counted; few = h.few })
  | inr (e, found) ↦
      let fewer = total-erase (λ e. length e.value) key e c.cache h.distinct found in
      elim (Bool-cases (ltb (e.inserted_at + c.ttl) now)) [
        | inl expired ↦
            rw (found, cache_get, expired)
              (record {
                distinct = Distinct-erase key c.cache h.distinct;
                counted = omega (arith, h.counted, fewer);
                few = omega (arith, h.few, length-erase key c.cache);
              })
        | inr live ↦
            rw (found, cache_get, live)
              (record {
                distinct =
                    Distinct-snoc key _ (erase key c.cache) (Distinct-erase key c.cache h.distinct)
                      (lookup-erase_self key c.cache);
                counted = omega (
                  arith,
                  h.counted,
                  fewer,
                  total-append (λ e. length e.value) (erase key c.cache)
                      ((key, record e { last_accessed_at = now }) ∷ []),
                );
                few = omega (
                  arith,
                  h.few,
                  length-erase_found key e c.cache found,
                  length-append {0} (erase key c.cache)
                      ((key, record e { last_accessed_at = now }) ∷ []),
                );
              })
      ]
]

-- What stands between the two limits and the new entry: entries without its key, counted in full.
record IsRoom (key : String) (left : ℕ × Dict String CacheEntry) : Type 0 where
  distinct : Distinct left.1
  absent : lookup key left.1 ≡ none
  counted : held left.1 ≤ left.0

evict_bytes-IsRoom :
    (key : String) (n m current : ℕ) (d : Dict String CacheEntry)
    → IsRoom key (current, d)
    → IsRoom key (evict_bytes n m current d) × (length (evict_bytes n m current d).1 ≤ length d)
unfolding evict_bytes Distinct lookup
evict_bytes-IsRoom key n m current [] h = (h, omega arith)
evict_bytes-IsRoom key n m current ((k, e) ∷ d) h =
    let rest = evict_bytes-IsRoom key n m (current - length e.value) d (record {
      distinct = h.distinct.1;
      absent = ground (arith, h.absent);
      counted = omega (arith, h.counted);
    }) in
    elim (Bool-cases (ltb m (current + n))) [
      | inl over ↦ rw over (rest.0, omega (arith, rest.1))
      | inr fits ↦ rw fits (h, omega arith)
    ]

enforce_budget-IsRoom :
    (key : String) (budget : Option ℕ) (n : ℕ) (left : ℕ × Dict String CacheEntry)
    → IsRoom key left
    → IsRoom key (enforce_budget budget n left)
      × (length (enforce_budget budget n left).1 ≤ length left.1)
unfolding enforce_budget
enforce_budget-IsRoom key none n left h = (h, omega arith)
enforce_budget-IsRoom key (some m) n left h = evict_bytes-IsRoom key n m left.0 left.1 h

-- One entry goes when there are as many as the capacity, which is positive.
enforce_capacity-IsRoom :
    (key : String) (capacity : ℕ) (left : ℕ × Dict String CacheEntry)
    → 0 < capacity
    → length left.1 ≤ capacity
    → IsRoom key left
    → (out : ℕ × Dict String CacheEntry) × (enforce_capacity capacity left ≡ some out)
      × IsRoom key out
      × (length out.1 + 1 ≤ capacity)
      × (out.0 ≤ left.0)
unfolding enforce_capacity Distinct lookup
enforce_capacity-IsRoom key capacity (current, []) pos few h =
    ((current, []), ground arith, h, omega arith, omega arith)
enforce_capacity-IsRoom key capacity (current, (k, e) ∷ d) pos few h =
    elim (Bool-cases (leb capacity (suc (length d)))) [
      | inl full ↦ (
        (current - length e.value, d),
        rw full refl,
        record {
          distinct = h.distinct.1;
          absent = ground (arith, h.absent);
          counted = omega (arith, h.counted);
        },
        ground arith,
        omega arith,
      )
      | inr free ↦ ((current, (k, e) ∷ d), rw free refl, h, ground arith, omega arith)
    ]

-- A put succeeds, its entry is found, and the bounds hold.
pub Puts : String → List ℕ → ℕ → Option ReaderCache → Type 0
Puts key value now out =
    (c : ReaderCache) × (out ≡ some c)
    × IsBounded c
    × (lookup key c.cache ≡ some (fresh_entry value now))

stored-Puts :
    (key : String) (value : List ℕ) (now n : ℕ) (c : ReaderCache) (d : Dict String CacheEntry)
    → Distinct d
    → held (erase key d) ≤ n
    → length (erase key d) + 1 ≤ c.capacity
    → Puts key value now (some (store_entry key value now c (n, d)))
unfolding Puts
stored-Puts key value now n c d u h few = (
  store_entry key value now c (n, d),
  refl,
  stored-IsBounded key value now n c d u h few,
  unfold store_entry in lookup-move_to_end key (fresh_entry value now) d,
)

put_new-Puts :
    (key : String) (value : List ℕ) (now : ℕ) (c : ReaderCache)
    → IsBounded c
    → 0 < c.capacity
    → lookup key c.cache ≡ none
    → Puts key value now (put_new key value now c)
unfolding put_new
put_new-Puts key value now c h pos gone =
    let room : IsRoom key (c.current_bytes, c.cache) = record {
      distinct = h.distinct;
      absent = gone;
      counted = h.counted;
    } in
    let (fits, fewer) =
      enforce_budget-IsRoom key c.max_bytes (length value) (c.current_bytes, c.cache) room in
    let (out, made, left, few, less) =
      enforce_capacity-IsRoom key c.capacity _ pos (omega (arith, h.few, fewer)) fits in
    let same : erase key out.1 ≡ out.1 = erase_absent key out.1 left.absent in
    rw (made, put_new)
      (stored-Puts key value now out.0 c out.1 left.distinct
        (omega (arith, ap held same, left.counted)) (omega (arith, ap (λ d. length d) same)))

-- With room for at least one entry, a put of any value succeeds; its entry is found, with the time
-- of the put; the keys stay distinct, the byte count at least what is held, and the entries at most
-- the capacity.
pub cache_put-Puts :
    (key : String) (value : List ℕ) (now : ℕ) (c : ReaderCache)
    → IsBounded c
    → 0 < c.capacity
    → Puts key value now (cache_put key value now c)
unfolding cache_put
cache_put-Puts key value now c h pos = elim (Option-cases (lookup key c.cache)) [
  | inl gone ↦ rw (gone, cache_put) (put_new-Puts key value now c h pos gone)
  | inr (old, found) ↦
      rw (found, cache_put)
        (stored-Puts key value now (c.current_bytes - length old.value) c c.cache h.distinct
          (omega
            (arith, h.counted, total-erase (λ e. length e.value) key old c.cache h.distinct found))
          (omega (arith, h.few, length-erase_found key old c.cache found)))
]
