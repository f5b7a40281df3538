-- ===== src/EndpointRouter/Rollback.antt =====
-- A rollback to the endpoint of before a flip, whatever the two calls of the factory give.
use mctrader_data.Prelude.{
  ℕ, String, ◌≡◌, refl, sym, ◌⊎◌, inl, inr, Bool, true, false, Option, none, some, subst,
  Bool-cases, if_true, if_false, if◌then◌else◌,
}
use mctrader_data.EndpointRouter.{
  flipped, flip_blocked, FlipResult, GraceModeState, Router, violates, start_grace, swap, flip,
  roll, rollback,
}
use mctrader_data.EndpointRouter.Atomic.{flip_refused, flip_tried}

-- The factory at the flip, and at the rollback.
module _ {C : Type 0} (factory later : String → Option C) (host : C → Option String) where
  -- The client, the URL and the grace mode that a flip leaves.
  abbrev pub LeftBy : String → Bool → ℕ → ℕ → Router C → Option C → String → GraceModeState → Type 0
  LeftBy new activate now days r client url grace =
      ((r.grace.active ≡ true) × (client ≡ r.client) × (url ≡ r.endpoint_url) × (grace ≡ r.grace))
      ⊎ ((r.grace.active ≡ false)
          × (factory new ≡ none)
          × (client ≡ r.client)
          × (url ≡ r.endpoint_url)
          × (grace ≡ r.grace))
      ⊎ ((c : C) × (r.grace.active ≡ false)
          × (factory new ≡ some c)
          × (client ≡ some c)
          × (url ≡ new)
          × (grace ≡ (
              if violates factory host new (host c)
              then r.grace
              else start_grace factory host activate now days r.grace)))

  -- By what the factory gives at the rollback.
  abbrev pub RollsBack :
      String → Bool → ℕ → ℕ → Router C → FlipResult × Router C → Option C → Type 0
  RollsBack new activate now days r run none =
      (run.0.status ≡ flip_blocked)
      × (run.1.env ≡ r.endpoint_url)
      × LeftBy new activate now days r run.1.client run.1.endpoint_url run.1.grace
  RollsBack new activate now days r run (some c) =
      (run.0.status ≡ flipped)
      × (run.1.env ≡ r.endpoint_url)
      × (run.1.endpoint_url ≡ r.endpoint_url)
      × (run.1.client ≡ some c)
      × ((left : Option C) × (grace : GraceModeState) × LeftBy new activate now days r left
            run.0.previous_endpoint grace
          × (run.1.grace ≡ record grace { active = false }))

  swap-LeftBy :
      (new : String) (activate : Bool) (now days : ℕ) (r : Router C) (o : Option C)
      → r.grace.active ≡ false
      → factory new ≡ o
      → LeftBy new activate now days r
          (swap factory host new activate now days r o).1.client
          (swap factory host new activate now days r o).1.endpoint_url
          (swap factory host new activate now days r o).1.grace
  unfolding swap
  swap-LeftBy new activate now days r none off made = inr (inl (off, made, refl, refl, refl))
  swap-LeftBy new activate now days r (some c) off made =
      elim (Bool-cases (violates factory host new (host c))) [
        | inl wrong ↦ rw wrong (
            inr (
              inr (
                c,
                off,
                made,
                refl,
                refl,
                sym (if_true (violates factory host new (host c)) _ _ wrong),
              )))
        | inr right ↦ rw right (
            inr (
              inr (
                c,
                off,
                made,
                refl,
                refl,
                sym (if_false (violates factory host new (host c)) _ _ right),
              )))
      ]

  abbrev Leaves : String → Bool → ℕ → ℕ → Router C → Router C → Type 0
  Leaves new activate now days r v = LeftBy new activate now days r v.client v.endpoint_url v.grace

  flip-Leaves :
      (new : String) (activate : Bool) (now days : ℕ) (r : Router C)
      → Leaves new activate now days r (flip factory host new activate now days r).1
  flip-Leaves new activate now days r = elim (Bool-cases r.grace.active) [
    | inl on ↦
        subst (λ p. Leaves new activate now days r p.1)
          (sym (flip_refused factory host new activate now days r on)) (inl (on, refl, refl, refl))
    | inr off ↦
        subst (λ p. Leaves new activate now days r p.1)
          (sym (flip_tried factory host new activate now days r off))
          (swap-LeftBy new activate now days r (factory new) off refl)
  ]

  roll-RollsBack :
      (new : String) (activate : Bool) (now days : ℕ) (r v : Router C) (o : Option C)
      → Leaves new activate now days r v
      → RollsBack new activate now days r (roll later host r.endpoint_url v o) o
  unfolding roll
  roll-RollsBack new activate now days r v none h = (refl, refl, h)
  roll-RollsBack new activate now days r v (some c) h =
      (refl, refl, refl, refl, (v.client, v.grace, h, refl))

  -- A flip, and then a rollback to the endpoint of before, the factory of clients being free to answer
  -- the two calls in any way. When it gives a client to the rollback, the answer is "flipped": the
  -- variable and the URL are the endpoint of before, the client is the new one, and the grace mode is
  -- that of after the flip, but off. When it raises, the answer is "flip_blocked": the variable is
  -- the endpoint of before, while the client, the URL and the grace mode stay as the flip
  -- left them: as they were, if the grace mode was on or the factory raised, or else those of
  -- the new endpoint, with the grace mode started as asked for, unless the client shows
  -- another host.
  pub rollback-flip :
      (new : String) (activate : Bool) (now days : ℕ) (r : Router C)
      → RollsBack new activate now days r
          (rollback later host r.endpoint_url (flip factory host new activate now days r).1)
          (later r.endpoint_url)
  unfolding rollback
  rollback-flip new activate now days r =
      roll-RollsBack new activate now days r (flip factory host new activate now days r).1
        (later r.endpoint_url) (flip-Leaves new activate now days r)
