-- ===== src/ReaderCache/Flush.antt =====
-- flush_all, and the check of verify_flushed.
use mctrader_data.Prelude.{
  ℕ, ◌+◌, ◌-◌, ◌<◌, String, ◌≡◌, refl, ap, true, Option, none, some, List, [], ◌∷◌, arith, length,
}
use mctrader_data.Prelude.Dict.{string_eq, lookup, erase, beq_refl}
use mctrader_data.ReaderCache.{
  CacheEntry, ReaderCache, flushed, CacheFlushResult, miss, cache_get, evict_bytes, enforce_budget,
  enforce_capacity, fresh_entry, store_entry, put_new, cache_put, cleared, pop_probe, flush_status,
  probe_value, check_value, reset_counters, probe_after, flush_all, is_none, check_after,
  verify_flushed,
}

-- A put into an empty cache with room for one entry, under any budget.
put_first_under :
    (budget : Option ℕ) (key : String) (value : List ℕ) (now : ℕ) (c : ReaderCache)
    → 0 < c.capacity
    → cache_put key value now (record c { max_bytes = budget; cache = [] })
      ≡ some (record c {
        max_bytes = budget;
        cache = (key, fresh_entry value now) ∷ [];
        current_bytes = c.current_bytes + length value;
      })
unfolding cache_put put_new enforce_budget evict_bytes enforce_capacity store_entry lookup erase
put_first_under none key value now c room = ground arith
put_first_under (some budget) key value now c room = ground arith

put_first :
    (key : String) (value : List ℕ) (now : ℕ) (c : ReaderCache)
    → 0 < c.capacity
    → cache_put key value now (record c { cache = [] })
      ≡ some (record c {
        cache = (key, fresh_entry value now) ∷ [];
        current_bytes = c.current_bytes + length value;
      })
put_first key value now c room = put_first_under c.max_bytes key value now c room

erase_single : (key : String) (e : CacheEntry) → erase key ((key, e) ∷ []) ≡ []
unfolding erase
erase_single key e = rw (beq_refl key) refl

lookup_single : (key : String) (e : CacheEntry) → lookup key ((key, e) ∷ []) ≡ some e
unfolding lookup
lookup_single key e = rw (beq_refl key) refl

pop_probe_single :
    (key : String) (e : CacheEntry) (c : ReaderCache)
    → pop_probe key (record c { cache = (key, e) ∷ [] })
      ≡ record c { cache = []; current_bytes = c.current_bytes - length e.value }
unfolding pop_probe
pop_probe_single key e c = rw (lookup_single key e, pop_probe, erase_single key e) refl

check_after_single :
    (key : String) (e : CacheEntry) (now : ℕ) (c : ReaderCache)
    → check_after key now (record c { cache = (key, e) ∷ [] })
      ≡ (true, record c { cache = []; hit_count = 0; miss_count = 0 })
unfolding check_after is_none reset_counters cache_get miss lookup
check_after_single key e now c = rw (erase_single key e) refl

-- What a flush leaves: no entries, no bytes, no counts, and the limits.
pub FlushesTo : ReaderCache → Option (CacheFlushResult × ReaderCache) → Type 0
FlushesTo c out =
    out
    ≡ some (
      record { status = flushed; flushed_count = length c.cache; remaining_count = 0 },
      record c { cache = []; hit_count = 0; miss_count = 0; current_bytes = 0 },
    )

-- With room for at least one entry, a flush succeeds: it counts the entries that were there, and
-- leaves an empty cache with its byte count at zero, whatever the budget and the time to live.
pub flush_all-FlushesTo :
    (probe : String) (now : ℕ) (c : ReaderCache)
    → 0 < c.capacity
    → FlushesTo c (flush_all probe now c)
unfolding flush_all FlushesTo cleared probe_after reset_counters miss flush_status lookup erase
    fresh_entry cache_get
flush_all-FlushesTo probe now c room =
    rw (flush_all, put_first probe probe_value now (cleared c) room)
      (ap (λ z. some (probe_after (length c.cache) probe now z))
        (pop_probe_single probe (fresh_entry probe_value now)
          (record (cleared c) { current_bytes = 12 })))

-- With room for at least one entry, the check of an empty cache answers yes and leaves it empty;
-- but the byte count is five more than before, as the probe is popped without its bytes.
pub verify_flushed-leaks :
    (probe : String) (now : ℕ) (c : ReaderCache)
    → 0 < c.capacity
    → verify_flushed probe now (record c { cache = [] })
      ≡ some (
        true,
        record c { cache = []; hit_count = 0; miss_count = 0; current_bytes = c.current_bytes + 5 },
      )
unfolding verify_flushed check_after reset_counters is_none cache_get lookup erase miss
verify_flushed-leaks probe now c room = rw (put_first probe check_value now c room) (
    ap some (
      check_after_single probe (fresh_entry check_value now) now
        (record c { current_bytes = c.current_bytes + 5 })))
