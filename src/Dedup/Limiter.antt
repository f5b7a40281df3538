-- ===== src/Dedup/Limiter.antt =====
-- The records that the limiter emits and those that wait in it.
use mctrader_data.Prelude.{
  ℕ, ◌+◌, ◌-◌, ◌≡◌, inl, inr, Bool, List, [], ◌∷◌, ◌++◌, arith, leb, All, Bool-cases, List-cases,
}
use mctrader_data.Prelude.Sort.{count, count-append}
use mctrader_data.Dedup.{BackpressureLimiter, admit_counted, admit_rolled, admit, limiter_flush}

module _ {Q : Type 0} where
  count-admit_counted :
      (p : Q → Bool) (q : Q) (l : BackpressureLimiter Q)
      → count p (admit_counted q l).0 + count p (admit_counted q l).1.batch
        ≡ count p l.batch + count p (q ∷ [])
  unfolding admit_counted
  count-admit_counted p q l = ground (arith, count-append p l.batch (q ∷ []))

  count-admit_rolled :
      (p : Q → Bool) (now : ℕ) (q : Q) (l : BackpressureLimiter Q)
      → count p (admit_rolled now q l).0 + count p (admit_rolled now q l).1.batch
        ≡ count p l.batch + count p (q ∷ [])
  unfolding admit_rolled
  count-admit_rolled p now q l =
      ground (arith, count-admit_counted p q (record l { window_start = now; window_count = 0 }))

  pub count-admit :
      (p : Q → Bool) (now : ℕ) (q : Q) (l : BackpressureLimiter Q)
      → count p (admit now q l).0 + count p (admit now q l).1.batch
        ≡ count p l.batch + count p (q ∷ [])
  unfolding admit
  count-admit p now q l = ground (arith, count-admit_rolled p now q l, count-admit_counted p q l)

  pub count-limiter_flush :
      (p : Q → Bool) (l : BackpressureLimiter Q) → count p (limiter_flush l).0 ≡ count p l.batch
  unfolding limiter_flush
  count-limiter_flush p l = ground arith

  -- What a scan emits, at the times given, with the flush at its end.
  pub emit_all : List (ℕ × Q) → BackpressureLimiter Q → List Q
  emit_all [] l = (limiter_flush l).0
  emit_all ((now, q) ∷ rest) l = (admit now q l).0 ++ emit_all rest (admit now q l).1

  pub offered : List (ℕ × Q) → List Q
  offered [] = []
  offered ((now, q) ∷ rest) = q ∷ offered rest

  -- Whatever the times and the cap, the records that a scan emits are those that were waiting and
  -- those that it offers, each as often.
  pub count-emit_all :
      (p : Q → Bool) (xs : List (ℕ × Q)) (l : BackpressureLimiter Q)
      → count p (emit_all xs l) ≡ count p l.batch + count p (offered xs)
  unfolding emit_all offered
  count-emit_all p [] l = ground (arith, count-limiter_flush p l)
  count-emit_all p ((now, q) ∷ rest) l = ground (
    arith,
    count-append p (admit now q l).0 (emit_all rest (admit now q l).1),
    count-emit_all p rest (admit now q l).1,
    count-admit p now q l,
  )

  module _ (P : Q → Type 0) where
    All-snoc : (q : Q) (xs : List Q) → P q → All P xs → All P (xs ++ q ∷ [])
    All-snoc q [] h k = (h, tt)
    All-snoc q (x ∷ xs) h k = (k.0, All-snoc q xs h k.1)

    -- Every record that is emitted, and every one that waits.
    abbrev Both : List Q × BackpressureLimiter Q → Type 0
    Both out = All P out.0 × All P out.1.batch

    Both-admit_counted :
        (q : Q) (l : BackpressureLimiter Q) → P q → All P l.batch → Both (admit_counted q l)
    unfolding admit_counted
    Both-admit_counted q l h k = elim (Bool-cases (leb (l.window_count + 1) l.cap)) [
      | inl room ↦ rw room ((h, tt), k)
      | inr over ↦ rw over (tt, All-snoc q l.batch h k)
    ]

    Both-admit_rolled :
        (now : ℕ) (q : Q) (l : BackpressureLimiter Q)
        → P q
        → All P l.batch
        → Both (admit_rolled now q l)
    unfolding admit_rolled
    Both-admit_rolled now q l h k = elim (List-cases l.batch) [
      | inl nothing ↦ rw (nothing, admit_rolled) (Both-admit_counted q _ h (rw nothing tt))
      | inr (first, others, waiting) ↦ rw (waiting, admit_rolled) (rw waiting at k, (h, tt))
    ]

    pub Both-admit :
        (now : ℕ) (q : Q) (l : BackpressureLimiter Q) → P q → All P l.batch → Both (admit now q l)
    unfolding admit
    Both-admit now q l h k = elim (Bool-cases (leb 1000 (now - l.window_start))) [
      | inl rolled ↦ rw rolled (Both-admit_rolled now q l h k)
      | inr same ↦ rw same (Both-admit_counted q l h k)
    ]

    pub All-limiter_flush : (l : BackpressureLimiter Q) → All P l.batch → All P (limiter_flush l).0
    unfolding limiter_flush
    All-limiter_flush l k = elim (List-cases l.batch) [
      | inl nothing ↦ rw (nothing, limiter_flush) tt
      | inr (first, others, waiting) ↦ rw (waiting, limiter_flush) (rw waiting at k)
    ]

    pub All-append : (xs ys : List Q) → All P xs → All P ys → All P (xs ++ ys)
    All-append [] ys h k = k
    All-append (x ∷ xs) ys h k = (h.0, All-append xs ys h.1 k)
