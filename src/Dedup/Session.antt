-- ===== src/Dedup/Session.antt =====
-- is_duplicate over the candles of one session.
use mctrader_data.Prelude.{
  ℕ, String, ◌≡◌, Option, none, some, List, [], ◌∷◌, arith, ◌==◌, if◌then◌else◌, str_eq,
}
use mctrader_data.Prelude.Dict.{Dict, num_eq, lookup, lookup-insert}
use mctrader_data.Dedup.{
  CandleRow, DedupStatus, unique, same_hash, hash_conflict, compute_data_hash, is_duplicate,
}

module _ (sha256 : String → String) (date_text : ℕ → String) where
  -- The dictionary after these candles.
  pub seen_after : List CandleRow → Dict ℕ String → Dict ℕ String
  seen_after [] seen = seen
  seen_after (c ∷ cs) seen = seen_after cs (is_duplicate sha256 date_text c seen).1

  -- The digest of the first of these candles with this time.
  pub first_hash : ℕ → List CandleRow → Option String
  first_hash t [] = none
  first_hash t (c ∷ cs) =
      if c.ts_utc == t then some (compute_data_hash sha256 date_text c) else first_hash t cs

  pub verdict : Option String → String → DedupStatus
  verdict none current = unique
  verdict (some first) current = if str_eq first current then same_hash else hash_conflict

  lookup-is_duplicate :
      (t : ℕ) (c : CandleRow) (seen : Dict ℕ String)
      → lookup t (is_duplicate sha256 date_text c seen).1 ≡ elim (lookup t seen) [
        | none ↦ if c.ts_utc == t then some (compute_data_hash sha256 date_text c) else none
        | some h ↦ some h
      ]
  unfolding is_duplicate
  lookup-is_duplicate t c seen =
      ground (arith, lookup-insert c.ts_utc t (compute_data_hash sha256 date_text c) seen)

  lookup-seen_after :
      (t : ℕ) (cs : List CandleRow) (seen : Dict ℕ String)
      → lookup t (seen_after cs seen)
        ≡ elim (lookup t seen) [ none ↦ first_hash t cs | some h ↦ some h ]
  unfolding seen_after first_hash
  lookup-seen_after t [] seen = ground arith
  lookup-seen_after t (c ∷ cs) seen = ground (
    arith,
    lookup-seen_after t cs (is_duplicate sha256 date_text c seen).1,
    lookup-is_duplicate t c seen,
  )

  -- After any candles of a session, the next one is unique when none of them has its time, and
  -- otherwise a duplicate or a conflict, as the first of them with its time has its digest or not.
  pub is_duplicate-seen_after :
      (cs : List CandleRow) (c : CandleRow)
      → (is_duplicate sha256 date_text c (seen_after cs [])).0
        ≡ verdict (first_hash c.ts_utc cs) (compute_data_hash sha256 date_text c)
  unfolding is_duplicate verdict lookup
  is_duplicate-seen_after cs c = ground (arith, lookup-seen_after c.ts_utc cs [])
