-- ===== src/Aggregation/Stream.antt =====
-- A stream of ticks of several symbols, and the machine that one symbol sees.
use mctrader_data.Prelude.{
  String, ◌≡◌, refl, sym, ◌∙◌, inl, inr, Option, none, some, List, [], ◌∷◌, arith, str_eq, eq_iff,
  if◌then◌else◌, Option-cases,
}
use mctrader_data.Prelude.Dict.{string_eq, lookup, insert, lookup-insert, lookup-erase}
use mctrader_data.Aggregation.Numbers.{Decimal}
use mctrader_data.Aggregation.{
  Tick, BarState, Bar, Aggregator, States, new_state, merge, should_close, emit, close_if_reached,
  process_tick,
}

abbrev pub cons_some {ℓ} : {A : Type ℓ} → Option A → List A → List A
cons_some none xs = xs
cons_some (some x) xs = x ∷ xs

abbrev pub ticks_of : {D : Type 0} → String → List (Tick D) → List (Tick D)
ticks_of s [] = []
ticks_of s (t ∷ ts) = if str_eq t.symbol s then t ∷ ticks_of s ts else ticks_of s ts

abbrev pub bars_of : {D : Type 0} → String → List (Bar D) → List (Bar D)
bars_of s [] = []
bars_of s (b ∷ bs) = if str_eq b.symbol s then b ∷ bars_of s bs else bars_of s bs

module _ {D : Type 0} (num : Decimal D) (a : Aggregator D) where
  -- `process_tick` called for each tick of a stream, and the bars that it returned.
  unfoldable pub run : List (Tick D) → States D → List (Bar D) × States D
  run [] states = ([], states)
  run (t ∷ ts) states =
      let (bar, states') = process_tick num a t states in
      let (bars, final) = run ts states' in (cons_some bar bars, final)

  unfoldable pub close_one : BarState D → Tick D → Option (Bar D) × Option (BarState D)
  close_one s t = if should_close num a s then (some (emit num a s t), none) else (none, some s)

  unfoldable pub step_one : Option (BarState D) → Tick D → Option (Bar D) × Option (BarState D)
  unfolding close_one
  step_one none t = close_one (new_state num t) t
  step_one (some s) t = close_one (merge num s t) t

  unfoldable pub run_one : Option (BarState D) → List (Tick D) → List (Bar D) × Option (BarState D)
  run_one o [] = ([], o)
  run_one o (t ∷ ts) =
      let (bar, o') = step_one o t in
      let (bars, final) = run_one o' ts in (cons_some bar bars, final)

  symbol-emit : (s : BarState D) (t : Tick D) → (emit num a s t).symbol ≡ t.symbol
  unfolding emit
  symbol-emit s t = refl

  close_if_reached-close_one :
      (s : BarState D) (t : Tick D) (m : States D) (j : String)
      → ((close_if_reached num a s t m).0 ≡ (close_one s t).0)
        × (lookup j (close_if_reached num a s t m).1
            ≡ (if str_eq t.symbol j then (close_one s t).1 else lookup j m))
  unfolding close_if_reached close_one
  close_if_reached-close_one s t m j =
      ground (arith, lookup-insert t.symbol j s m, lookup-erase t.symbol j (insert t.symbol s m))

  process_tick-step_one :
      (t : Tick D) (m : States D) (j : String)
      → ((process_tick num a t m).0 ≡ (step_one (lookup t.symbol m) t).0)
        × (lookup j (process_tick num a t m).1
            ≡ (if str_eq t.symbol j then (step_one (lookup t.symbol m) t).1 else lookup j m))
  unfolding process_tick step_one
  process_tick-step_one t m j = elim (Option-cases (lookup t.symbol m)) [
    | inl fresh ↦ ground (arith, close_if_reached-close_one (new_state num t) t m j)
    | inr (s, running) ↦ ground (arith, close_if_reached-close_one (merge num s t) t m j)
  ]

  symbol-close_one :
      (s : BarState D) (t : Tick D) (b : Bar D) → (close_one s t).0 ≡ some b → b.symbol ≡ t.symbol
  unfolding close_one emit
  symbol-close_one s t b h = ground arith

  symbol-step_one :
      (o : Option (BarState D)) (t : Tick D) (b : Bar D)
      → (step_one o t).0 ≡ some b
      → b.symbol ≡ t.symbol
  unfolding step_one
  symbol-step_one none t b h = symbol-close_one (new_state num t) t b h
  symbol-step_one (some s) t b h = symbol-close_one (merge num s t) t b h

  -- A bar is kept or dropped with the symbol of the tick that closed it.
  bars_of-cons_some :
      (j : String) (o : Option (Bar D)) (name : String) (bs : List (Bar D))
      → ((b : Bar D) → o ≡ some b → b.symbol ≡ name)
      → bars_of j (cons_some o bs)
        ≡ (if str_eq name j then cons_some o (bars_of j bs) else bars_of j bs)
  bars_of-cons_some j none name bs h = ground arith
  bars_of-cons_some j (some b) name bs h = rw (← h b refl)

  -- What one symbol sees of a run over several symbols.
  abbrev pub SeesOwn : String → List (Tick D) → States D → Type 0
  SeesOwn j ts m =
      (bars_of j (run ts m).0 ≡ (run_one (lookup j m) (ticks_of j ts)).0)
      × (lookup j (run ts m).1 ≡ (run_one (lookup j m) (ticks_of j ts)).1)

  -- For every stream and every starting states: the bars and the final state of a symbol are those
  -- of its own ticks alone, run from its own state.
  pub run-isolated : (j : String) (ts : List (Tick D)) (m : States D) → SeesOwn j ts m
  unfolding run run_one
  run-isolated j [] m = (refl, refl)
  run-isolated j (t ∷ ts) m =
      let m' = (process_tick num a t m).1 in
      let kept = bars_of-cons_some j (process_tick num a t m).0 t.symbol (run ts m').0 (λ b e.
        symbol-step_one (lookup t.symbol m) t b (sym (process_tick-step_one t m j).0 ∙ e)) in
      ground (arith, run-isolated j ts m', process_tick-step_one t m j, eq_iff t.symbol j, kept)
