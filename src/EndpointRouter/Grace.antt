-- ===== src/EndpointRouter/Grace.antt =====
-- The grace mode against flips.
use mctrader_data.Prelude.{ℕ, String, ◌≡◌, refl, ap, ◌∙◌, Bool, true, Option, List, [], ◌∷◌}
use mctrader_data.EndpointRouter.{Router, flip, activate_grace_mode}
use mctrader_data.EndpointRouter.Atomic.{flip_refused}

-- A call of flip: the endpoint, whether the grace mode is asked for, the time, the days.
abbrev pub FlipCall : Type 0
FlipCall = String × Bool × ℕ × ℕ

module _ {C : Type 0} (factory : String → Option C) (host : C → Option String) where
  -- The router after some flips.
  pub after_flips : List FlipCall → Router C → Router C
  after_flips [] r = r
  after_flips ((new, activate, now, days) ∷ calls) r =
      after_flips calls (flip factory host new activate now days r).1

  flips-keep :
      (calls : List FlipCall) (r : Router C) → r.grace.active ≡ true → after_flips calls r ≡ r
  unfolding after_flips
  flips-keep [] r on = refl
  flips-keep ((new, activate, now, days) ∷ calls) r on =
      ap (λ p. after_flips calls p.1) (flip_refused factory host new activate now days r on)
      ∙ flips-keep calls r on

  -- Once the grace mode is activated, by activate_grace_mode, no sequence of flips changes the router;
  -- a second activation keeps the time of the first.
  pub activate_grace_mode-Locks :
      (now days later more : ℕ) (calls : List FlipCall) (r : Router C)
      → (after_flips calls (activate_grace_mode factory host now days r)
          ≡ activate_grace_mode factory host now days r)
        × ((activate_grace_mode factory host later more
              (activate_grace_mode factory host now days r)).grace.started_at
            ≡ (activate_grace_mode factory host now days r).grace.started_at)
  unfolding activate_grace_mode
  activate_grace_mode-Locks now days later more calls r =
      (flips-keep calls (activate_grace_mode factory host now days r) refl, refl)
