-- ===== src/EndpointRouter/Atomic.antt =====
-- flip and rollback: which attributes change together.
use mctrader_data.Prelude.{
  ℕ, String, ◌≡◌, refl, sym, ◌⊎◌, inl, inr, Bool, true, false, Option, none, some, subst, if_true,
  if_false, Bool-cases,
}
use mctrader_data.EndpointRouter.{
  FlipStatus, flipped, dual_write_grace_active, flip_blocked, FlipResult, Router, remaining_days,
  violates, start_grace, swap, flip,
}

module _ {C : Type 0} (factory : String → Option C) (host : C → Option String) where
  -- The variable, the URL and the client belong together.
  pub record IsConsistent (r : Router C) : Type 0 where
    pub env_is_url : r.env ≡ r.endpoint_url
    pub client_is_made : r.client ≡ factory r.endpoint_url

  -- The client and the URL of a router, and its grace mode.
  abbrev pub SameState : Router C → Router C → Type 0
  SameState a b = (a.client ≡ b.client) × (a.endpoint_url ≡ b.endpoint_url) × (a.grace ≡ b.grace)

  -- By the status of a flip.
  abbrev pub Flips : String → Bool → ℕ → ℕ → Router C → FlipResult × Router C → FlipStatus → Type 0
  Flips new activate now days r run flipped =
      (r.grace.active ≡ false)
      × IsConsistent run.1
      × (run.1.endpoint_url ≡ new)
      × (run.1.grace ≡ start_grace factory host activate now days r.grace)
      × (run.0.previous_endpoint ≡ r.endpoint_url)
      × ((c : C) × (factory new ≡ some c) × (violates factory host new (host c) ≡ false))
  Flips new activate now days r run dual_write_grace_active = (r.grace.active ≡ true) × (run.1 ≡ r)
  Flips new activate now days r run flip_blocked =
      (r.grace.active ≡ false)
      × (run.1.env ≡ new)
      × (((factory new ≡ none) × SameState run.1 r)
          ⊎ ((c : C) × (factory new ≡ some c)
              × (violates factory host new (host c) ≡ true)
              × (run.1.client ≡ some c)
              × (run.1.endpoint_url ≡ new)
              × (run.1.grace ≡ r.grace)))

  swap-Flips :
      (new : String) (activate : Bool) (now days : ℕ) (r : Router C) (o : Option C)
      → r.grace.active ≡ false
      → factory new ≡ o
      → Flips new activate now days r
          (swap factory host new activate now days r o)
          (swap factory host new activate now days r o).0.status
  unfolding swap
  swap-Flips new activate now days r none h made = (h, refl, inl (made, (refl, refl, refl)))
  swap-Flips new activate now days r (some c) h made =
      elim (Bool-cases (violates factory host new (host c))) [
        | inl wrong ↦ rw wrong (h, refl, inr (c, made, wrong, refl, refl, refl))
        | inr right ↦ rw right (
          h,
          record { env_is_url = refl; client_is_made = sym made },
          refl,
          refl,
          refl,
          (c, made, right),
        )
      ]

  pub flip_refused :
      (new : String) (activate : Bool) (now days : ℕ) (r : Router C)
      → r.grace.active ≡ true
      → flip factory host new activate now days r ≡ (
        record {
          status = dual_write_grace_active;
          new_endpoint = r.endpoint_url;
          previous_endpoint = r.endpoint_url;
          grace_remaining = remaining_days factory host now r.grace;
        },
        r,
      )
  unfolding flip
  flip_refused new activate now days r on = if_true r.grace.active _ _ on

  pub flip_tried :
      (new : String) (activate : Bool) (now days : ℕ) (r : Router C)
      → r.grace.active ≡ false
      → flip factory host new activate now days r
        ≡ swap factory host new activate now days r (factory new)
  unfolding flip
  flip_tried new activate now days r off = if_false r.grace.active _ _ off

  -- A flip ends in one of three ways. "dual_write_grace_active": the grace mode was on, and nothing
  -- has changed. "flipped": it was off, and the variable, the URL and the client are those of the new
  -- endpoint, the client without another host, and the grace mode is as asked for. "flip_blocked":
  -- the variable is the new endpoint, and either the factory raised and the client, the URL and the
  -- grace mode are as they were, or the client shows another host and it and the URL are in place
  -- nevertheless.
  pub flip-Flips :
      (new : String) (activate : Bool) (now days : ℕ) (r : Router C)
      → Flips new activate now days r
          (flip factory host new activate now days r)
          (flip factory host new activate now days r).0.status
  unfolding flip
  flip-Flips new activate now days r = elim (Bool-cases r.grace.active) [
    | inl on ↦
        subst (λ p. Flips new activate now days r p p.0.status)
          (sym (flip_refused new activate now days r on)) (on, refl)
    | inr off ↦
        subst (λ p. Flips new activate now days r p p.0.status)
          (sym (flip_tried new activate now days r off))
          (swap-Flips new activate now days r (factory new) off refl)
  ]
