-- ===== src/Aggregation/Laws.antt =====
-- What the bar of a block says of the block's ticks, and the length of the blocks of a tick bar.
use mctrader_data.Prelude.{
  some, ℕ, ◌+◌, ◌≤◌, ◌<◌, ◌≡◌, refl, ◌⊎◌, inl, inr, false, List, [], ◌∷◌, map, foldl, arith,
  Bool-cases, length, All,
}
use mctrader_data.Aggregation.Numbers.{Decimal}
use mctrader_data.Aggregation.{
  Tick, BarState, Bar, Aggregator, tick_aggregator, tick_init, new_state, merge, should_close, emit,
}
use mctrader_data.Aggregation.Blocks.{
  Block, block_ticks, last_of, ClosesAtLast, block_state, bar_of,
}

-- Some tick of the list has the price.
abbrev pub HasPrice : {D : Type 0} → D → List (Tick D) → Type 0
HasPrice p [] = ⊥
HasPrice p (t ∷ ts) = (p ≡ t.price) ⊎ HasPrice p ts

module _ {D : Type 0} (num : Decimal D) where
  open num use {add, mul, lt, lt_asym, le_trans}

  lt_irrefl : (x : D) → lt x x ≡ false
  lt_irrefl x = elim (Bool-cases (lt x x)) [ inl below ↦ lt_asym x x below | inr same ↦ same ]

  high-merge :
      (s : BarState D) (t : Tick D)
      → (lt (merge num s t).high s.high ≡ false) × (lt (merge num s t).high t.price ≡ false)
  unfolding merge
  high-merge s t = ground (arith, lt_irrefl s.high, lt_irrefl t.price, lt_asym s.high t.price)

  low-merge :
      (s : BarState D) (t : Tick D)
      → (lt s.low (merge num s t).low ≡ false) × (lt t.price (merge num s t).low ≡ false)
  unfolding merge
  low-merge s t = ground (arith, lt_irrefl s.low, lt_irrefl t.price, lt_asym t.price s.low)

  high_grows :
      (s : BarState D) (ts : List (Tick D)) → lt (foldl (merge num) s ts).high s.high ≡ false
  high_grows s [] = lt_irrefl s.high
  high_grows s (t ∷ ts) =
      le_trans s.high (merge num s t).high _ (high-merge s t).0 (high_grows (merge num s t) ts)

  low_falls : (s : BarState D) (ts : List (Tick D)) → lt s.low (foldl (merge num) s ts).low ≡ false
  low_falls s [] = lt_irrefl s.low
  low_falls s (t ∷ ts) =
      le_trans _ (merge num s t).low s.low (low_falls (merge num s t) ts) (low-merge s t).0

  high_bounds :
      (s : BarState D) (ts : List (Tick D))
      → All (λ t. lt (foldl (merge num) s ts).high t.price ≡ false) ts
  high_bounds s [] = tt
  high_bounds s (t ∷ ts) = (
    le_trans t.price (merge num s t).high _ (high-merge s t).1 (high_grows (merge num s t) ts),
    high_bounds (merge num s t) ts,
  )

  low_bounds :
      (s : BarState D) (ts : List (Tick D))
      → All (λ t. lt t.price (foldl (merge num) s ts).low ≡ false) ts
  low_bounds s [] = tt
  low_bounds s (t ∷ ts) = (
    le_trans _ (merge num s t).low t.price (low_falls (merge num s t) ts) (low-merge s t).1,
    low_bounds (merge num s t) ts,
  )

  high_met :
      (s : BarState D) (ts : List (Tick D))
      → ((foldl (merge num) s ts).high ≡ s.high) ⊎ HasPrice (foldl (merge num) s ts).high ts
  unfolding merge
  high_met s [] = inl refl
  high_met s (t ∷ ts) = ground (arith, high_met (merge num s t) ts)

  low_met :
      (s : BarState D) (ts : List (Tick D))
      → ((foldl (merge num) s ts).low ≡ s.low) ⊎ HasPrice (foldl (merge num) s ts).low ts
  unfolding merge
  low_met s [] = inl refl
  low_met s (t ∷ ts) = ground (arith, low_met (merge num s t) ts)

  close_is_last :
      (s : BarState D) (t : Tick D) (ts : List (Tick D))
      → s.close_price ≡ t.price
      → (foldl (merge num) s ts).close_price ≡ (last_of t ts).price
  unfolding merge
  close_is_last s t [] h = h
  close_is_last s t (u ∷ us) h = close_is_last (merge num s u) u us refl

  totals :
      (s : BarState D) (ts : List (Tick D))
      → ((foldl (merge num) s ts).volume ≡ foldl add s.volume (map (λ t. t.quantity) ts))
        × ((foldl (merge num) s ts).value
            ≡ foldl add s.value (map (λ t. mul t.price t.quantity) ts))
        × ((foldl (merge num) s ts).tick_count ≡ s.tick_count + length ts)
        × ((foldl (merge num) s ts).open_price ≡ s.open_price)
        × ((foldl (merge num) s ts).genesis_ts ≡ s.genesis_ts)
  unfolding merge
  totals s [] = (refl, refl, omega arith, refl, refl)
  totals s (t ∷ ts) =
      let ih = totals (merge num s t) ts in (ih.0, ih.1, omega (arith, ih.2), ih.3, ih.4)

  -- `x ≤ y` is that `y < x` fails.
  pub record Summarises (bar : Bar D) (b : Block D) : Type 0 where
    pub opens : bar.open_price ≡ b.first.price
    pub closes : bar.close_price ≡ (last_of b.first b.rest).price
    pub high_above : All (λ t. lt bar.high t.price ≡ false) (block_ticks b)
    pub low_below : All (λ t. lt t.price bar.low ≡ false) (block_ticks b)
    pub high_is_met : HasPrice bar.high (block_ticks b)
    pub low_is_met : HasPrice bar.low (block_ticks b)
    pub volume_is : bar.volume ≡ foldl add b.first.quantity (map (λ t. t.quantity) b.rest)
    pub value_is :
        bar.value
        ≡ foldl add (mul b.first.price b.first.quantity) (map (λ t. mul t.price t.quantity) b.rest)
    pub begins : bar.genesis_ts ≡ b.first.ts_utc
    pub ends_later : bar.genesis_ts < bar.ts_close

  -- The bar of a block opens at the first price and closes at the last, its high and low are
  -- prices of the block that bound all of them, its volume and value are the running sums, and
  -- it ends strictly after the first tick's time, where it begins.
  pub bar_of-Summarises : (a : Aggregator D) (b : Block D) → Summarises (bar_of num a b) b
  unfolding bar_of emit block_state new_state
  bar_of-Summarises a b =
      let s = new_state num b.first in
      let sums = totals s b.rest in
      record {
        opens = sums.3;
        closes = close_is_last s b.first b.rest refl;
        high_above = (high_grows s b.rest, high_bounds s b.rest);
        low_below = (low_falls s b.rest, low_bounds s b.rest);
        high_is_met = high_met s b.rest;
        low_is_met = low_met s b.rest;
        volume_is = sums.0;
        value_is = sums.1;
        begins = sums.4;
        ends_later = ground arith;
      }

  count_to_close :
      (n : ℕ) (s : BarState D) (ts : List (Tick D))
      → s.tick_count ≤ n
      → ClosesAtLast num (tick_aggregator n) s ts
      → s.tick_count + length ts ≡ n
  unfolding should_close merge
  count_to_close n s [] h c = ground arith
  count_to_close n s (t ∷ ts) h c =
      ground (arith, count_to_close n (merge num s t) ts (ground arith) c.1)

  tick_init-positive : (n : ℕ) → tick_init {D = D} n ≡ some (tick_aggregator n) → 0 < n
  unfolding tick_init
  tick_init-positive n h = ground arith

  -- A block of a tick aggregator that its constructor accepts, with threshold n, has exactly n
  -- ticks.
  pub length-block_ticks :
      (n : ℕ) (b : Block D)
      → tick_init {D = D} n ≡ some (tick_aggregator n)
      → ClosesAtLast num (tick_aggregator n) (new_state num b.first) b.rest
      → length (block_ticks b) ≡ n
  unfolding new_state
  length-block_ticks n b pos c =
      omega (arith, count_to_close n (new_state num b.first) b.rest (tick_init-positive n pos) c)
