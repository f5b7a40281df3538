-- ===== src/Aggregation/Time.antt =====
-- Time bars, and the windows of the timeframe.
use mctrader_data.Prelude.{
  ℕ, ◌+◌, ◌*◌, ◌/◌, ◌≤◌, ◌<◌, String, ◌≡◌, refl, subst, Bool-cases, inl, inr, Option, none, some,
  List, [], ◌∷◌, arith, str_eq, ltb, Option-cases, All,
}
use mctrader_data.Prelude.Dict.{string_eq, lookup, insert, lookup-insert}
use mctrader_data.Aggregation.Numbers.{Decimal}
use mctrader_data.Aggregation.{
  Tick, BarState, Bar, States, merge, time_init, window_start, time_emit, seed, process_tick_time,
}
use mctrader_data.Aggregation.Stream.{cons_some}

-- The window of a time holds it.
window_start_bounds :
    (timeframe ts : ℕ)
    → 0 < timeframe
    → (window_start timeframe ts ≤ ts) × (ts < window_start timeframe ts + timeframe)
unfolding window_start
window_start_bounds timeframe ts pos = grind arith

module _ {D : Type 0} (num : Decimal D) (timeframe : ℕ) where
  -- The state's window is a multiple of the timeframe, and holds the latest tick.
  pub record FitsWindow (s : BarState D) : Type 0 where
    pub index : ℕ
    pub aligned : s.genesis_ts ≡ index * timeframe
    pub after_start : s.genesis_ts ≤ s.last_ts
    pub before_end : s.last_ts < s.genesis_ts + timeframe

  -- Every stored state fits its window and has seen nothing later than `now`.
  pub record StatesFit (now : ℕ) (m : States D) : Type 0 where
    pub at_symbol :
        (j : String) (s : BarState D) → lookup j m ≡ some s → FitsWindow s × (s.last_ts ≤ now)

  -- A bar spans one whole window that has ended by `now`.
  pub record IsWindow (now : ℕ) (b : Bar D) : Type 0 where
    pub index : ℕ
    pub aligned : b.genesis_ts ≡ index * timeframe
    pub spans : b.ts_close ≡ b.genesis_ts + timeframe
    pub ended : b.ts_close ≤ now

  abbrev pub IsWindow? : ℕ → Option (Bar D) → Type 0
  IsWindow? now none = Unit
  IsWindow? now (some b) = IsWindow now b

  seed-FitsWindow : (t : Tick D) → 0 < timeframe → FitsWindow (seed num timeframe t)
  unfolding seed
  seed-FitsWindow t pos = record {
    index = t.ts_utc / timeframe;
    aligned = refl;
    after_start = (window_start_bounds timeframe t.ts_utc pos).0;
    before_end = (window_start_bounds timeframe t.ts_utc pos).1;
  }

  merge-FitsWindow :
      (s : BarState D) (t : Tick D)
      → FitsWindow s
      → s.last_ts ≤ t.ts_utc
      → t.ts_utc < s.genesis_ts + timeframe
      → FitsWindow (merge num s t)
  unfolding merge
  merge-FitsWindow s t f later h = record {
    index = f.index;
    aligned = f.aligned;
    after_start = omega (arith, f.after_start);
    before_end = h;
  }

  insert-StatesFit :
      (name : String) (now later : ℕ) (s : BarState D) (m : States D)
      → now ≤ later
      → FitsWindow s
      → s.last_ts ≤ later
      → StatesFit now m
      → StatesFit later (insert name s m)
  insert-StatesFit name now later s m h f k fit = record {
    at_symbol = λ j r e. elim (Bool-cases (str_eq name j)) [
      | inl same ↦
          let found : s ≡ r = ground (arith, lookup-insert name j s m) in
          subst (λ x. FitsWindow x × (x.last_ts ≤ later)) found (f, k)
      | inr other ↦
          let old : FitsWindow r × (r.last_ts ≤ now) =
            fit.at_symbol j r (ground (arith, lookup-insert name j s m)) in
          (old.0, omega arith)
    ];
  }

  seeded :
      (now : ℕ) (t : Tick D) (m : States D)
      → 0 < timeframe
      → now ≤ t.ts_utc
      → StatesFit now m
      → StatesFit t.ts_utc (insert t.symbol (seed num timeframe t) m)
  unfolding seed
  seeded now t m pos h fit =
      insert-StatesFit t.symbol now t.ts_utc _ m h (seed-FitsWindow t pos) (omega arith) fit

  time_emit-IsWindow :
      (s : BarState D) (t : Tick D)
      → FitsWindow s
      → s.genesis_ts + timeframe ≤ t.ts_utc
      → IsWindow t.ts_utc (time_emit num timeframe s t)
  unfolding time_emit
  time_emit-IsWindow s t f h = record {
    index = f.index;
    aligned = f.aligned;
    spans = refl;
    ended = h;
  }

  -- For a tick that is not earlier than any before it: the stored states fit their windows again,
  -- and a bar that comes out spans a whole window that ended at or before the tick.
  pub process_tick_time-StatesFit :
      (now : ℕ) (t : Tick D) (m : States D)
      → 0 < timeframe
      → now ≤ t.ts_utc
      → StatesFit now m
      → StatesFit t.ts_utc (process_tick_time num timeframe t m).1
        × IsWindow? t.ts_utc (process_tick_time num timeframe t m).0
  unfolding process_tick_time
  process_tick_time-StatesFit now t m pos h fit = elim (Option-cases (lookup t.symbol m)) [
    | inl fresh ↦ rw (fresh, process_tick_time) (seeded now t m pos h fit, tt)
    | inr (s, running) ↦
        let old = fit.at_symbol t.symbol s running in
        elim (Bool-cases (ltb t.ts_utc (s.genesis_ts + timeframe))) [
          | inl within ↦
              rw (running, within, process_tick_time)
                (
                  insert-StatesFit t.symbol now t.ts_utc (merge num s t) m h
                      (merge-FitsWindow s t old.0 (omega (arith, old.1)) (ground arith))
                      (unfold merge in omega arith) fit,
                  tt,
                )
          | inr past ↦
              rw (running, past, process_tick_time)
                (seeded now t m pos h fit, time_emit-IsWindow s t old.0 (ground arith))
        ]
  ]

  -- `process_tick` called for each tick of a stream, and the bars that it returned.
  pub run_time : List (Tick D) → States D → List (Bar D)
  run_time [] m = []
  run_time (t ∷ ts) m =
      let (bar, m') = process_tick_time num timeframe t m in cons_some bar (run_time ts m')

  -- The times of the ticks do not fall, from `now` up to `end`.
  abbrev pub InOrder : ℕ → List (Tick D) → ℕ → Type 0
  InOrder now [] end = now ≤ end
  InOrder now (t ∷ ts) end = (now ≤ t.ts_utc) × InOrder t.ts_utc ts end

  InOrder-le : (now : ℕ) (ts : List (Tick D)) (end : ℕ) → InOrder now ts end → now ≤ end
  InOrder-le now [] end h = h
  InOrder-le now (t ∷ ts) end h = omega (arith, InOrder-le t.ts_utc ts end h.1)

  All-cons_some :
      (now end : ℕ) (bar : Option (Bar D)) (bars : List (Bar D))
      → now ≤ end
      → IsWindow? now bar
      → All (IsWindow end) bars
      → All (IsWindow end) (cons_some bar bars)
  All-cons_some now end none bars h w all = all
  All-cons_some now end (some b) bars h w all = (
    record {
      index = w.index;
      aligned = w.aligned;
      spans = w.spans;
      ended = omega (arith, w.ended);
    },
    all,
  )

  windows_from :
      (now end : ℕ) (ts : List (Tick D)) (m : States D)
      → 0 < timeframe
      → StatesFit now m
      → InOrder now ts end
      → All (IsWindow end) (run_time ts m)
  unfolding run_time
  windows_from now end [] m pos fit h = tt
  windows_from now end (t ∷ ts) m pos fit h =
      let step = process_tick_time-StatesFit now t m pos h.0 fit in
      All-cons_some t.ts_utc end _ _ (InOrder-le t.ts_utc ts end h.1) step.1
        (windows_from t.ts_utc end ts (process_tick_time num timeframe t m).1 pos step.0 h.1)

  -- For a timeframe that the constructor accepts and a stream of ticks, of any symbols, whose times
  -- do not fall, each bar of the whole run spans exactly one window, from a multiple of the
  -- timeframe to the next, and has ended by the end of the stream.
  pub run_time-windows :
      (end : ℕ) (ts : List (Tick D))
      → time_init timeframe ≡ some timeframe
      → InOrder 0 ts end
      → All (IsWindow end) (run_time ts [])
  unfolding lookup time_init
  run_time-windows end ts made h =
      windows_from 0 end ts [] (ground arith) (record { at_symbol = λ j s e. cc }) h
