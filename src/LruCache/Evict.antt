-- ===== src/LruCache/Evict.antt =====
-- The eviction loop, and the end of the entries that it leaves.
use mctrader_data.Prelude.{
  ℕ, ◌+◌, ◌-◌, ◌≤◌, ◌<◌, String, ◌≡◌, ◌⊎◌, inl, inr, [], ◌∷◌, ◌++◌, ltb, refl, ap, subst, arith,
  length, length-append, tail, Bool-cases, none,
}
use mctrader_data.Prelude.Dict.{Dict, string_eq, lookup}
use mctrader_data.Prelude.Ordered.{total, Distinct}
use mctrader_data.LruCache.{Bytes, evict}

abbrev pub held : Dict String Bytes → ℕ
held d = total length d

-- left is an end of d that fits beside the new bytes, or is empty, and no longer end of d fits.
pub record IsLongestFit (new_len max_bytes : ℕ) (d left : Dict String Bytes) : Type 0 where
  pub evicted : Dict String Bytes
  pub is_end : d ≡ evicted ++ left
  pub fits : (held left + new_len ≤ max_bytes) ⊎ (left ≡ [])
  pub longest :
      (before longer : Dict String Bytes)
      → d ≡ before ++ longer
      → length left < length longer
      → max_bytes < held longer + new_len

pub evict-held :
    (n m : ℕ) (d : Dict String Bytes) → (evict n m (held d) d).0 ≡ held (evict n m (held d) d).1
unfolding evict
evict-held n m [] = refl
evict-held n m ((k, v) ∷ d) =
    let less : held ((k, v) ∷ d) - length v ≡ held d = omega arith in
    ground (arith, evict-held n m d)

pub Distinct-evict : (n m c : ℕ) (d : Dict String Bytes) → Distinct d → Distinct (evict n m c d).1
unfolding evict Distinct
Distinct-evict n m c [] u = u
Distinct-evict n m c ((k, v) ∷ d) u = ground (arith, Distinct-evict n m (c - length v) d u.1)

pub lookup-evict :
    (n m c : ℕ) (key : String) (d : Dict String Bytes)
    → lookup key d ≡ none
    → lookup key (evict n m c d).1 ≡ none
unfolding evict lookup
lookup-evict n m c key [] h = h
lookup-evict n m c key ((k, v) ∷ d) h = ground (arith, lookup-evict n m (c - length v) key d)

module _ (n m : ℕ) where
  keeps : (d : Dict String Bytes) → (held d + n ≤ m) ⊎ (d ≡ []) → IsLongestFit n m d d
  keeps d fits = record {
    evicted = [];
    is_end = refl;
    fits = fits;
    longest = λ before longer split more.
        absurd (omega (arith, ap length split, length-append before longer));
  }

  longest_drop :
      (x : String × Bytes) (d left before longer : Dict String Bytes)
      → m < held (x ∷ d) + n
      → IsLongestFit n m d left
      → x ∷ d ≡ before ++ longer
      → length left < length longer
      → m < held longer + n
  longest_drop x d left [] longer over h split more = subst (λ y. m < held y + n) split over
  longest_drop x d left (y ∷ before) longer over h split more =
      h.longest before longer (ap tail split) more

  drops :
      (x : String × Bytes) (d left : Dict String Bytes)
      → m < held (x ∷ d) + n
      → IsLongestFit n m d left
      → IsLongestFit n m (x ∷ d) left
  drops x d left over h = record {
    evicted = x ∷ h.evicted;
    is_end = ap (λ y. x ∷ y) h.is_end;
    fits = h.fits;
    longest = λ before longer. longest_drop x d left before longer over h;
  }

  -- From an exact count, the loop leaves the longest end of the entries, oldest first, that fits
  -- beside the new bytes.
  pub evict-IsLongestFit : (d : Dict String Bytes) → IsLongestFit n m d (evict n m (held d) d).1
  unfolding evict
  evict-IsLongestFit [] = keeps [] (inr refl)
  evict-IsLongestFit ((k, v) ∷ d) = elim (Bool-cases (ltb m (held ((k, v) ∷ d) + n))) [
    | inl over ↦
        let less : held ((k, v) ∷ d) - length v ≡ held d = omega arith in
        rw (over, less) (drops (k, v) d _ (ground arith) (evict-IsLongestFit d))
    | inr fits ↦ rw fits (keeps ((k, v) ∷ d) (inl (ground arith)))
  ]
