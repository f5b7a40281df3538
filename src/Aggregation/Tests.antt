-- ===== src/Aggregation/Tests.antt =====
-- The aggregators on a short stream of two symbols, with whole numbers for the decimals.
use mctrader_data.Prelude.{
  ℕ, ◌+◌, ◌*◌, ◌≡◌, refl, true, false, none, some, List, [], ◌∷◌, arith, ltb, length, All,
}
use mctrader_data.Prelude.Dict.{lookup, insert, erase, string_eq}
use mctrader_data.Aggregation.Numbers.{Decimal}
use mctrader_data.Aggregation.{
  Tick, volume_aggregator, new_state, merge, should_close, emit, close_if_reached, process_tick,
  time_init, volume_init, dollar_init,
}
use mctrader_data.Aggregation.Stream.{ticks_of, bars_of, run}
use mctrader_data.Aggregation.Blocks.{Block, bar_of, IsCut, run-IsCut}
use mctrader_data.Aggregation.Laws.{Summarises, bar_of-Summarises}
use mctrader_data.Aggregation.Time.{IsWindow, run_time, run_time-windows}

ltb_asym : (a b : ℕ) → ltb a b ≡ true → ltb b a ≡ false
ltb_asym a b h = ground arith

ltb_trans : (a b c : ℕ) → ltb b a ≡ false → ltb c b ≡ false → ltb c a ≡ false
ltb_trans a b c h k = ground arith

abbrev whole : Decimal ℕ
whole = record {
  add = ◌+◌;
  mul = ◌*◌;
  lt = ltb;
  of_nat = λ n. n;
  lt_asym = ltb_asym;
  le_trans = ltb_trans;
}

abbrev btc : ℕ → ℕ → ℕ → Tick ℕ
btc ts price quantity = record {
  ts_utc = ts;
  exchange = "upbit";
  symbol = "KRW-BTC";
  price = price;
  quantity = quantity;
}

abbrev eth : ℕ → ℕ → ℕ → Tick ℕ
eth ts price quantity = record (btc ts price quantity) { symbol = "KRW-ETH" }

abbrev stream : List (Tick ℕ)
stream = btc 10 100 4 ∷ eth 11 7 9 ∷ btc 12 90 7 ∷ btc 13 95 2 ∷ eth 13 8 9 ∷ []

abbrev two_ticks : Block ℕ
two_ticks = record { first = btc 10 100 4; rest = btc 12 90 7 ∷ [] }

run-IsCut_example :
    IsCut whole
      (volume_aggregator 10)
      (ticks_of "KRW-BTC" stream)
      (bars_of "KRW-BTC" (run whole (volume_aggregator 10) stream []).0)
      (lookup "KRW-BTC" (run whole (volume_aggregator 10) stream []).1)
run-IsCut_example = run-IsCut whole (volume_aggregator 10) "KRW-BTC" stream

bar_of-Summarises_example :
    Summarises whole (bar_of whole (volume_aggregator 10) two_ticks) two_ticks
bar_of-Summarises_example = bar_of-Summarises whole (volume_aggregator 10) two_ticks

run_time-windows_example : All (IsWindow whole 5000000 13) (run_time whole 5000000 stream [])
unfolding time_init
run_time-windows_example = run_time-windows whole 5000000 13 stream refl (omega arith)

-- The second tick of KRW-BTC reaches ten; the third is left pending.
run_volume : length (run whole (volume_aggregator 10) stream []).0 ≡ 2
unfolding run process_tick close_if_reached should_close new_state merge emit lookup insert erase
run_volume = refl

inits :
    (volume_init whole 0 ≡ none)
    × (dollar_init whole 0 ≡ none)
    × (time_init 1500000 ≡ none)
    × (volume_init whole 3 ≡ some (volume_aggregator 3))
unfolding volume_init dollar_init time_init
inits = (refl, refl, refl, refl)
