-- ===== src/LruCache/Tests.antt =====
-- A cache with room for four bytes.
use mctrader_data.Prelude.{◌≡◌, refl, [], ◌∷◌}
use mctrader_data.Prelude.Dict.{string_eq, lookup, erase}
use mctrader_data.Prelude.Ordered.{Distinct}
use mctrader_data.LruCache.{
  LruCache, lru_init, lru_get, remove, evict, store, lru_put, lru_invalidate,
}
use mctrader_data.LruCache.Laws.{IsAccounted, Puts, lru_put-Puts}

abbrev filled : LruCache
filled = record { max_bytes = 4; cache = ("a", 1 ∷ 2 ∷ []) ∷ ("b", 3 ∷ []) ∷ []; current_bytes = 3 }

filled-IsAccounted : IsAccounted filled
unfolding Distinct lookup
filled-IsAccounted = record { exact = refl; distinct = (refl, (refl, tt)) }

lru_put-Puts_example : Puts "c" (7 ∷ 8 ∷ []) filled (lru_put "c" (7 ∷ 8 ∷ []) filled)
lru_put-Puts_example = lru_put-Puts "c" (7 ∷ 8 ∷ []) filled filled-IsAccounted

-- "a" is read, so "b" is the one that goes; a value over the budget is alone.
scenario :
    ((lru_put "c" (7 ∷ 8 ∷ []) (lru_get "a" filled).1).cache
      ≡ ("a", 1 ∷ 2 ∷ []) ∷ ("c", 7 ∷ 8 ∷ []) ∷ [])
    × ((lru_put "d" (1 ∷ 2 ∷ 3 ∷ 4 ∷ 5 ∷ []) filled).cache ≡ ("d", 1 ∷ 2 ∷ 3 ∷ 4 ∷ 5 ∷ []) ∷ [])
    × ((lru_invalidate "a" filled).current_bytes ≡ 1)
    × ((lru_put "a" (1 ∷ []) (lru_init 4)).current_bytes ≡ 1)
unfolding lru_init lru_get remove evict store lru_put lru_invalidate lookup erase
scenario = (refl, refl, refl, refl)
