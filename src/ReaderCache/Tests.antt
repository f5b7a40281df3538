-- ===== src/ReaderCache/Tests.antt =====
-- A cache for two entries and four bytes, whose entries live ten ticks of the clock.
use mctrader_data.Prelude.{◌+◌, ◌≡◌, refl, true, none, some, [], ◌∷◌, arith}
use mctrader_data.Prelude.Dict.{string_eq, lookup, erase}
use mctrader_data.Prelude.Ordered.{Distinct}
use mctrader_data.ReaderCache.{
  ReaderCache, miss, cache_get, evict_bytes, enforce_budget, enforce_capacity, fresh_entry,
  store_entry, put_new, cache_put, flush_all, verify_flushed,
}
use mctrader_data.ReaderCache.Put.{IsBounded, Puts, cache_put-Puts}
use mctrader_data.ReaderCache.Flush.{FlushesTo, flush_all-FlushesTo, verify_flushed-leaks}

abbrev filled : ReaderCache
filled = record {
  capacity = 2;
  ttl = 10;
  max_bytes = some 4;
  cache = ("a", record { value = 1 ∷ 2 ∷ []; inserted_at = 5; last_accessed_at = 5 }) ∷ [];
  hit_count = 0;
  miss_count = 0;
  current_bytes = 2;
}

filled-IsBounded : IsBounded filled
unfolding Distinct lookup
filled-IsBounded = record { distinct = (refl, tt); counted = omega arith; few = omega arith }

cache_put-Puts_example : Puts "b" (3 ∷ []) 7 (cache_put "b" (3 ∷ []) 7 filled)
cache_put-Puts_example = cache_put-Puts "b" (3 ∷ []) 7 filled filled-IsBounded (omega arith)

flush_all-FlushesTo_example : FlushesTo filled (flush_all "p" 9 filled)
flush_all-FlushesTo_example = flush_all-FlushesTo "p" 9 filled (omega arith)

verify_flushed-leaks_example :
    verify_flushed "p" 9 (record filled { cache = [] })
    ≡ some
        (true, record filled { cache = []; hit_count = 0; miss_count = 0; current_bytes = 2 + 5 })
verify_flushed-leaks_example = verify_flushed-leaks "p" 9 filled (omega arith)

-- An entry that has expired goes, and its bytes stay counted; a value that replaces another is
-- stored over the budget; with a capacity of zero, a put is an error.
scenario :
    ((cache_get "a" 16 filled).1.cache ≡ [])
    × ((cache_get "a" 16 filled).1.current_bytes ≡ 2)
    × ((cache_get "a" 15 filled).0 ≡ some (1 ∷ 2 ∷ []))
    × (cache_put "a" (1 ∷ 2 ∷ 3 ∷ 4 ∷ 5 ∷ []) 6 filled
        ≡ some (record filled {
          cache = ("a", fresh_entry (1 ∷ 2 ∷ 3 ∷ 4 ∷ 5 ∷ []) 6) ∷ [];
          current_bytes = 5;
        }))
    × (cache_put "b" [] 6 (record filled { capacity = 0; cache = []; current_bytes = 0 }) ≡ none)
unfolding cache_get miss cache_put put_new enforce_budget enforce_capacity evict_bytes store_entry
    fresh_entry lookup erase
scenario = (refl, refl, refl, refl, refl)
