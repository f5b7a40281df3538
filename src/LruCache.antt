-- ===== src/LruCache.antt =====
-- src/mctrader_data/compactor/reader_cache.py: LRUReaderCache, under its lock. A stream over the
-- bytes is the bytes, and `_current_bytes` is a whole number.
mod Evict
mod Laws
mod Tests
use mctrader_data.Prelude.{
  ℕ, ◌+◌, ◌-◌, String, Bool, true, false, Option, none, some, List, [], ◌∷◌, ltb, if◌then◌else◌,
  length,
}
use mctrader_data.Prelude.Dict.{Dict, string_eq, lookup, erase}
use mctrader_data.Prelude.Ordered.{move_to_end}

abbrev pub Bytes : Type 0
Bytes = List ℕ

-- The oldest entry is the first.
pub record LruCache : Type 0 where
  pub max_bytes : ℕ
  pub cache : Dict String Bytes
  pub current_bytes : ℕ

pub lru_init : ℕ → LruCache
lru_init max_bytes = record { max_bytes = max_bytes; cache = []; current_bytes = 0 }

pub lru_get : String → LruCache → Option Bytes × LruCache
lru_get key c = elim (lookup key c.cache) [
  | none ↦ (none, c)
  | some bytes ↦ (some bytes, record c { cache = move_to_end key bytes c.cache })
]

-- `if nas_key in self._cache`: its bytes are counted off and it is deleted.
pub remove : String → LruCache → LruCache
remove key c = elim (lookup key c.cache) [
  | none ↦ c
  | some bytes ↦ record c {
    cache = erase key c.cache;
    current_bytes = c.current_bytes - length bytes;
  }
]

-- The while loop over popitem(last=False): what is left of the cache, and of the count.
pub evict : ℕ → ℕ → ℕ → Dict String Bytes → ℕ × Dict String Bytes
evict new_len max_bytes current [] = (current, [])
evict new_len max_bytes current ((k, bytes) ∷ d) =
    let rest = evict new_len max_bytes (current - length bytes) d in
    if ltb max_bytes (current + new_len) then rest else (current, (k, bytes) ∷ d)

pub store : String → Bytes → ℕ × Dict String Bytes → LruCache → LruCache
store key bytes left c = record c {
  cache = move_to_end key bytes left.1;
  current_bytes = left.0 + length bytes;
}

pub lru_put : String → Bytes → LruCache → LruCache
lru_put key bytes c =
    let removed = remove key c in
    store key bytes (evict (length bytes) c.max_bytes removed.current_bytes removed.cache) removed

pub lru_invalidate : String → LruCache → LruCache
lru_invalidate key c = remove key c
