-- ===== src/ReaderCache.antt =====
-- src/mctrader_data/io/reader_cache.py: ReaderCache, each operation under its lock and from start
-- to end. Times are whole numbers of a clock; a call reads it once. Bytes are a list of numbers.
-- The window of latencies and the figures drawn from it are left out.
mod Put
mod Flush
mod Tests
use mctrader_data.Prelude.{
  ℕ, suc, ◌+◌, ◌-◌, String, Bool, true, false, Option, none, some, List, [], ◌∷◌, ltb, leb,
  if◌then◌else◌, length, tail,
}
use mctrader_data.Prelude.Dict.{Dict, string_eq, lookup, erase}
use mctrader_data.Prelude.Ordered.{move_to_end}

pub record CacheEntry : Type 0 where
  pub value : List ℕ
  pub inserted_at : ℕ
  pub last_accessed_at : ℕ

-- The entry that was used longest ago is the first.
pub record ReaderCache : Type 0 where
  pub capacity : ℕ
  pub ttl : ℕ
  pub max_bytes : Option ℕ
  pub cache : Dict String CacheEntry
  pub hit_count : ℕ
  pub miss_count : ℕ
  pub current_bytes : ℕ

pub data FlushStatus : Type 0 where
  flushed partial_flush_failed verify_probe_failed : FlushStatus

pub record CacheFlushResult : Type 0 where
  pub status : FlushStatus
  pub flushed_count : ℕ
  pub remaining_count : ℕ

pub miss : ReaderCache → ReaderCache
miss c = record c { miss_count = c.miss_count + 1 }

pub cache_get : String → ℕ → ReaderCache → Option (List ℕ) × ReaderCache
cache_get key now c = elim (lookup key c.cache) [
  | none ↦ (none, miss c)
  | some e ↦
      if ltb (e.inserted_at + c.ttl) now
      then (none, miss (record c { cache = erase key c.cache }))
      else (
        some e.value,
        record c {
          cache = move_to_end key (record e { last_accessed_at = now }) c.cache;
          hit_count = c.hit_count + 1;
        },
      )
]

-- The while loop of the byte budget: the count and the entries that are left.
pub evict_bytes : ℕ → ℕ → ℕ → Dict String CacheEntry → ℕ × Dict String CacheEntry
evict_bytes new_len budget current [] = (current, [])
evict_bytes new_len budget current ((k, e) ∷ d) =
    let rest = evict_bytes new_len budget (current - length e.value) d in
    if ltb budget (current + new_len) then rest else (current, (k, e) ∷ d)

pub enforce_budget : Option ℕ → ℕ → ℕ × Dict String CacheEntry → ℕ × Dict String CacheEntry
enforce_budget none new_len left = left
enforce_budget (some budget) new_len left = evict_bytes new_len budget left.0 left.1

-- `none` is the KeyError of popitem on an empty dict.
pub enforce_capacity : ℕ → ℕ × Dict String CacheEntry → Option (ℕ × Dict String CacheEntry)
enforce_capacity capacity (current, []) = if leb capacity 0 then none else some (current, [])
enforce_capacity capacity (current, (k, e) ∷ d) =
    if leb capacity (suc (length d))
    then some (current - length e.value, d)
    else some (current, (k, e) ∷ d)

pub fresh_entry : List ℕ → ℕ → CacheEntry
fresh_entry value now = record { value = value; inserted_at = now; last_accessed_at = now }

pub store_entry : String → List ℕ → ℕ → ReaderCache → ℕ × Dict String CacheEntry → ReaderCache
store_entry key value now c left = record c {
  cache = move_to_end key (fresh_entry value now) left.1;
  current_bytes = left.0 + length value;
}

pub put_new : String → List ℕ → ℕ → ReaderCache → Option ReaderCache
put_new key value now c =
    elim (enforce_capacity c.capacity
      (enforce_budget c.max_bytes (length value) (c.current_bytes, c.cache))) [
        | none ↦ none
        | some left ↦ some (store_entry key value now c left)
      ]

pub cache_put : String → List ℕ → ℕ → ReaderCache → Option ReaderCache
cache_put key value now c = elim (lookup key c.cache) [
  | none ↦ put_new key value now c
  | some old ↦ some (store_entry key value now c (c.current_bytes - length old.value, c.cache))
]

pub cleared : ReaderCache → ReaderCache
cleared c = record c { cache = []; hit_count = 0; miss_count = 0; current_bytes = 0 }

-- `_cache.pop(probe_key, None)` and its bytes
pub pop_probe : String → ReaderCache → ReaderCache
pop_probe probe c = elim (lookup probe c.cache) [
  | none ↦ c
  | some e ↦ record c {
    cache = erase probe c.cache;
    current_bytes = c.current_bytes - length e.value;
  }
]

pub flush_status : Option (List ℕ) → ℕ → FlushStatus
flush_status (some v) remaining = verify_probe_failed
flush_status none remaining = if ltb 0 remaining then partial_flush_failed else flushed

-- b"verify_probe" and b"check"
abbrev pub probe_value : List ℕ
probe_value = 118 ∷ 101 ∷ 114 ∷ 105 ∷ 102 ∷ 121 ∷ 95 ∷ 112 ∷ 114 ∷ 111 ∷ 98 ∷ 101 ∷ []

abbrev pub check_value : List ℕ
check_value = 99 ∷ 104 ∷ 101 ∷ 99 ∷ 107 ∷ []

pub reset_counters : ReaderCache → ReaderCache
reset_counters c = record c { hit_count = 0; miss_count = 0 }

pub probe_after : ℕ → String → ℕ → ReaderCache → CacheFlushResult × ReaderCache
probe_after count probe now c =
    let got = cache_get probe now c in
    (
      record {
        status = flush_status got.0 (length c.cache);
        flushed_count = count;
        remaining_count = length c.cache;
      },
      reset_counters got.1,
    )

pub flush_all : String → ℕ → ReaderCache → Option (CacheFlushResult × ReaderCache)
flush_all probe now c = elim (cache_put probe probe_value now (cleared c)) [
  | none ↦ none
  | some c' ↦ some (probe_after (length c.cache) probe now (pop_probe probe c'))
]

pub is_none : Option (List ℕ) → Bool
is_none none = true
is_none (some v) = false

-- Here the probe is popped without its bytes.
pub check_after : String → ℕ → ReaderCache → Bool × ReaderCache
check_after probe now c =
    let got = cache_get probe now (record c { cache = erase probe c.cache }) in
    (is_none got.0, reset_counters got.1)

pub verify_flushed : String → ℕ → ReaderCache → Option (Bool × ReaderCache)
verify_flushed probe now c =
    if ltb 0 (length c.cache) then some (false, c) else elim (cache_put probe check_value now c) [
      | none ↦ none
      | some c' ↦ some (check_after probe now c')
    ]
