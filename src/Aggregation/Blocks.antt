-- ===== src/Aggregation/Blocks.antt =====
-- The bars of one symbol, and a description that knows nothing of running states: the ticks are cut
-- into blocks, and each block has its bar.
use mathlib.Core.List.{foldl-append, append_assoc, append-nil}
use mctrader_data.Prelude.{
  String, ◌≡◌, refl, sym, ◌∙◌, ap, inl, inr, Option, none, some, true, false, List, [], ◌∷◌, ◌++◌,
  map, foldl, arith, Bool-cases,
}
use mctrader_data.Prelude.Dict.{string_eq, lookup}
use mctrader_data.Aggregation.Numbers.{Decimal}
use mctrader_data.Aggregation.{
  Tick, BarState, Bar, Aggregator, new_state, merge, should_close, emit,
}
use mctrader_data.Aggregation.Stream.{
  ticks_of, bars_of, run, close_one, step_one, run_one, run-isolated,
}

-- A run of ticks that is not empty.
pub record Block (D : Type 0) : Type 0 where
  pub first : Tick D
  pub rest : List (Tick D)

module _ {D : Type 0} where
  abbrev pub block_ticks : Block D → List (Tick D)
  block_ticks b = b.first ∷ b.rest

  abbrev pub flatten_blocks : List (Block D) → List (Tick D)
  flatten_blocks [] = []
  flatten_blocks (b ∷ bs) = block_ticks b ++ flatten_blocks bs

  abbrev pub pending_ticks : Option (Block D) → List (Tick D)
  pending_ticks none = []
  pending_ticks (some b) = block_ticks b

  abbrev pub last_of : Tick D → List (Tick D) → Tick D
  last_of t [] = t
  last_of t (u ∷ us) = last_of u us

module _ {D : Type 0} (num : Decimal D) (a : Aggregator D) where
  -- No state from `s` on, as the ticks are merged, has reached the threshold.
  abbrev pub StaysOpen : BarState D → List (Tick D) → Type 0
  StaysOpen s [] = should_close num a s ≡ false
  StaysOpen s (t ∷ ts) = (should_close num a s ≡ false) × StaysOpen (merge num s t) ts

  -- The threshold is reached by the last tick, and by none before it.
  abbrev pub ClosesAtLast : BarState D → List (Tick D) → Type 0
  ClosesAtLast s [] = should_close num a s ≡ true
  ClosesAtLast s (t ∷ ts) = (should_close num a s ≡ false) × ClosesAtLast (merge num s t) ts

  unfoldable pub block_state : Block D → BarState D
  block_state b = foldl (merge num) (new_state num b.first) b.rest

  unfoldable pub bar_of : Block D → Bar D
  bar_of b = emit num a (block_state b) (last_of b.first b.rest)

  abbrev pub AllClose : List (Block D) → Type 0
  AllClose [] = Unit
  AllClose (b ∷ bs) = ClosesAtLast (new_state num b.first) b.rest × AllClose bs

  abbrev pub PendingIsOpen : Option (Block D) → Type 0
  PendingIsOpen none = Unit
  PendingIsOpen (some b) = StaysOpen (new_state num b.first) b.rest

  abbrev pub state_of : Option (Block D) → Option (BarState D)
  state_of none = none
  state_of (some b) = some (block_state b)

  -- The bars and the final state of a stream come from a cut of it into blocks.
  pub record IsCut (ticks : List (Tick D)) (bars : List (Bar D)) (final : Option (BarState D))
      : Type 0 where
    pub blocks : List (Block D)
    pub pending : Option (Block D)
    pub covers : flatten_blocks blocks ++ pending_ticks pending ≡ ticks
    pub each_closes : AllClose blocks
    pub rest_is_open : PendingIsOpen pending
    pub bars_are : bars ≡ map bar_of blocks
    pub final_is : final ≡ state_of pending

  StaysOpen-snoc :
      (s : BarState D) (ts : List (Tick D)) (t : Tick D)
      → StaysOpen s ts
      → should_close num a (merge num (foldl (merge num) s ts) t) ≡ false
      → StaysOpen s (ts ++ t ∷ [])
  StaysOpen-snoc s [] t o c = (o, c)
  StaysOpen-snoc s (u ∷ ts) t o c = (o.0, StaysOpen-snoc (merge num s u) ts t o.1 c)

  ClosesAtLast-snoc :
      (s : BarState D) (ts : List (Tick D)) (t : Tick D)
      → StaysOpen s ts
      → should_close num a (merge num (foldl (merge num) s ts) t) ≡ true
      → ClosesAtLast s (ts ++ t ∷ [])
  ClosesAtLast-snoc s [] t o c = (o, c)
  ClosesAtLast-snoc s (u ∷ ts) t o c = (o.0, ClosesAtLast-snoc (merge num s u) ts t o.1 c)

  last_of-snoc : (u : Tick D) (ts : List (Tick D)) (t : Tick D) → last_of u (ts ++ t ∷ []) ≡ t
  last_of-snoc u [] t = refl
  last_of-snoc u (v ∷ ts) t = last_of-snoc v ts t

  grow : Block D → Tick D → Block D
  grow b t = record b { rest = b.rest ++ t ∷ [] }

  block_state-grow :
      (b : Block D) (t : Tick D) → block_state (grow b t) ≡ merge num (block_state b) t
  unfolding grow block_state
  block_state-grow b t = foldl-append (merge num) (new_state num b.first) b.rest (t ∷ [])

  -- The tick joins the pending block, or begins one.
  extend : Option (Block D) → Tick D → Block D
  extend none t = record { first = t; rest = [] }
  extend (some b) t = grow b t

  step_one-extend :
      (p : Option (Block D)) (t : Tick D)
      → step_one num a (state_of p) t ≡ close_one num a (block_state (extend p t)) t
  unfolding step_one extend
  step_one-extend none t = unfold block_state in refl
  step_one-extend (some b) t = rw block_state-grow

  extend_ticks :
      (p : Option (Block D)) (t : Tick D) (ts : List (Tick D))
      → block_ticks (extend p t) ++ ts ≡ pending_ticks p ++ t ∷ ts
  unfolding extend grow
  extend_ticks none t ts = refl
  extend_ticks (some b) t ts = ap (λ l. b.first ∷ l) (append_assoc b.rest (t ∷ []) ts)

  extend_bar :
      (p : Option (Block D)) (t : Tick D)
      → bar_of (extend p t) ≡ emit num a (block_state (extend p t)) t
  unfolding extend bar_of grow
  extend_bar none t = refl
  extend_bar (some b) t = ap (emit num a (block_state (grow b t))) (last_of-snoc b.first b.rest t)

  extend_closes :
      (p : Option (Block D)) (t : Tick D)
      → PendingIsOpen p
      → should_close num a (block_state (extend p t)) ≡ true
      → AllClose (extend p t ∷ [])
  unfolding extend grow block_state
  extend_closes none t o c = (c, tt)
  extend_closes (some b) t o c = (
    ClosesAtLast-snoc _ b.rest t o (ap (should_close num a) (sym (block_state-grow b t)) ∙ c),
    tt,
  )

  extend_open :
      (p : Option (Block D)) (t : Tick D)
      → PendingIsOpen p
      → should_close num a (block_state (extend p t)) ≡ false
      → PendingIsOpen (some (extend p t))
  unfolding extend grow block_state
  extend_open none t o c = c
  extend_open (some b) t o c =
      StaysOpen-snoc _ b.rest t o (ap (should_close num a) (sym (block_state-grow b t)) ∙ c)

  step_one-closes :
      (p : Option (Block D)) (t : Tick D)
      → should_close num a (block_state (extend p t)) ≡ true
      → step_one num a (state_of p) t ≡ (some (bar_of (extend p t)), none)
  unfolding close_one
  step_one-closes p t c = rw step_one-extend (ground (arith, extend_bar p t))

  step_one-stays :
      (p : Option (Block D)) (t : Tick D)
      → should_close num a (block_state (extend p t)) ≡ false
      → step_one num a (state_of p) t ≡ (none, some (block_state (extend p t)))
  unfolding close_one
  step_one-stays p t c = rw step_one-extend (ground arith)

  -- One closed block and a cut of what follows it are a cut of all.
  add_block :
      (b : Block D) {ts : List (Tick D)} {bars : List (Bar D)} {final : Option (BarState D)}
      → AllClose (b ∷ [])
      → IsCut ts bars final
      → IsCut (block_ticks b ++ ts) (bar_of b ∷ bars) final
  add_block b c rest = record {
    blocks = b ∷ rest.blocks;
    pending = rest.pending;
    covers =
        append_assoc (block_ticks b) (flatten_blocks rest.blocks) (pending_ticks rest.pending)
        ∙ ap (λ l. block_ticks b ++ l) rest.covers;
    each_closes = (c.0, rest.each_closes);
    rest_is_open = rest.rest_is_open;
    bars_are = ap (λ bs. bar_of b ∷ bs) rest.bars_are;
    final_is = rest.final_is;
  }

  IsCut-from :
      (p : Option (Block D)) (ts : List (Tick D))
      → PendingIsOpen p
      → IsCut
          (pending_ticks p ++ ts)
          (run_one num a (state_of p) ts).0
          (run_one num a (state_of p) ts).1
  unfolding run_one
  IsCut-from p [] o = record {
    blocks = [];
    pending = p;
    covers = sym (append-nil (pending_ticks p));
    each_closes = tt;
    rest_is_open = o;
    bars_are = refl;
    final_is = refl;
  }
  IsCut-from p (t ∷ ts) o =
      rw (← extend_ticks p t ts)
        (elim (Bool-cases (should_close num a (block_state (extend p t)))) [
          | inl closes ↦
              rw (step_one-closes p t closes)
                (add_block (extend p t) (extend_closes p t o closes) (IsCut-from none ts tt))
          | inr stays ↦
              rw (step_one-stays p t stays)
                (IsCut-from (some (extend p t)) ts (extend_open p t o stays))
        ])

  -- The bars of a symbol in a run over several symbols, from no states, come from a cut of the
  -- symbol's own ticks: blocks in order, each ending exactly where the threshold is first
  -- reached, with the ticks after the last block kept as the symbol's pending state.
  pub run-IsCut :
      (j : String) (ts : List (Tick D))
      → IsCut (ticks_of j ts) (bars_of j (run num a ts []).0) (lookup j (run num a ts []).1)
  unfolding lookup
  run-IsCut j ts =
      rw ((run-isolated num a j ts []).0, (run-isolated num a j ts []).1)
        (IsCut-from none (ticks_of j ts) tt)
