-- ===== src/Promotion/Safety.antt =====
-- The local file through promote_l1, by the answers of the object store.
use mctrader_data.Prelude.{
  ℕ, ◌+◌, ◌≤◌, ◌<◌, String, ◌≡◌, refl, ap, sym, ◌∙◌, ◌⊎◌, inl, inr, true, ◌&&◌, Option, none, some,
  List, [], ◌∷◌, ◌==◌, arith, Bool-cases, length, eq_iff,
}
use mctrader_data.Promotion.{
  Head, HeadAnswer, head_ok, unreachable, HeadResult, got, head_failed, head_raised, promoted,
  verify_error, raised, PromotionRun, same_etag, head_attempts, head_with_retry, promote_absent,
  guard_and_delete, sha_matches, verify_local, promote_l1,
}
use mctrader_data.Promotion.Attempts.{head_attempts-got, head_attempts-le, head_with_retry-succeeds}

same_etag_iff : (a b : List ℕ) → same_etag a b ≡ true → a ≡ b
unfolding same_etag
same_etag_iff [] [] h = refl
same_etag_iff [] (d ∷ ds) h = absurd (ground arith)
same_etag_iff (c ∷ cs) [] h = absurd (ground arith)
same_etag_iff (c ∷ cs) (d ∷ ds) h = ground (arith, same_etag_iff cs ds)

module _ (nas : ℕ → HeadAnswer) (digest : List ℕ → String) where
  -- The evidence for a deletion: two answers, one after the other, the first of which has the
  -- file's length and, if it names a digest, the file's digest, and the second the same ETag and
  -- length.
  pub record Verified (bytes : List ℕ) (run : PromotionRun) : Type 0 where
    pub first : Head
    pub second : Head
    pub at_first : ℕ
    pub at_second : ℕ
    pub in_order : at_first < at_second
    pub answered_first : nas at_first ≡ head_ok first
    pub answered_second : nas at_second ≡ head_ok second
    pub digest_agrees : (first.sha256 ≡ none) ⊎ (first.sha256 ≡ some (digest bytes))
    pub length_agrees : first.content_length ≡ length bytes
    pub etag_stays : second.etag ≡ first.etag
    pub length_stays : second.content_length ≡ length bytes
    pub deleted : run.local_file ≡ none
    pub result_is : run.result ≡ promoted first.version_id first.etag

  pub Kept : List ℕ → PromotionRun → Type 0
  Kept bytes run =
      (run.local_file ≡ some bytes) × ((run.result ≡ verify_error) ⊎ (run.result ≡ raised))

  sha_agrees : (o : Option String) (d : String) → sha_matches o d ≡ true → (o ≡ none) ⊎ (o ≡ some d)
  unfolding sha_matches
  sha_agrees none d h = inl refl
  sha_agrees (some s) d h = inr (ap some ((eq_iff s d).0 h))

  guard-Safe :
      (i : ℕ) (h : Head) (bytes : List ℕ) (out : HeadResult × ℕ)
      → out ≡ head_with_retry nas (i + 1)
      → nas i ≡ head_ok h
      → (h.sha256 ≡ none) ⊎ (h.sha256 ≡ some (digest bytes))
      → h.content_length ≡ length bytes
      → Kept bytes (guard_and_delete nas h bytes out)
        ⊎ Verified bytes (guard_and_delete nas h bytes out)
  unfolding guard_and_delete Kept head_with_retry
  guard-Safe i h bytes (head_failed, n) from first sha len = inl (refl, inl refl)
  guard-Safe i h bytes (head_raised, n) from first sha len = inl (refl, inr refl)
  guard-Safe i h bytes (got g, n) from first sha len =
      elim (Bool-cases (same_etag g.etag h.etag && (g.content_length == h.content_length))) [
        | inr moved ↦ rw moved (inl (refl, inl refl))
        | inl same ↦
            let (j, last, later, second) =
              head_attempts-got nas 2 (i + 1) g (sym (ap (λ r. r.0) from)) in
            rw same (
              inr (record {
                first = h;
                second = g;
                at_first = i;
                at_second = j;
                in_order = omega arith;
                answered_first = first;
                answered_second = second;
                digest_agrees = sha;
                length_agrees = len;
                etag_stays = same_etag_iff g.etag h.etag (ground arith);
                length_stays = ground arith;
                deleted = refl;
                result_is = refl;
              }))
      ]

  verify-Safe :
      (bytes : List ℕ) (out : HeadResult × ℕ)
      → out ≡ head_with_retry nas 0
      → Kept bytes (verify_local nas digest bytes out)
        ⊎ Verified bytes (verify_local nas digest bytes out)
  unfolding verify_local Kept head_with_retry
  verify-Safe bytes (head_failed, n) from = inl (refl, inl refl)
  verify-Safe bytes (head_raised, n) from = inl (refl, inr refl)
  verify-Safe bytes (got h, n) from =
      elim (Bool-cases
        (sha_matches h.sha256 (digest bytes) && (h.content_length == length bytes))) [
          | inr differs ↦ rw differs (inl (refl, inl refl))
          | inl agrees ↦
              let (i, last, later, first) =
                head_attempts-got nas 2 0 h (sym (ap (λ r. r.0) from)) in
              let next : n ≡ i + 1 = ap (λ r. r.1) from ∙ last in
              rw agrees (
                guard-Safe i h bytes (head_attempts nas 2 n) (ap (head_attempts nas 2) next) first
                  (sha_agrees h.sha256 (digest bytes) (ground arith)) (ground arith))
        ]

  -- For every object store and digest: a promotion of a local file ends in an error with the file
  -- kept, or in success with the file deleted, and then two HEAD answers agree with the file, as
  -- `Verified` says.
  pub promote_l1-Safe :
      (bytes : List ℕ)
      → Kept bytes (promote_l1 nas digest (some bytes))
        ⊎ Verified bytes (promote_l1 nas digest (some bytes))
  unfolding promote_l1
  promote_l1-Safe bytes = verify-Safe bytes (head_with_retry nas 0) refl

  absent-result :
      (h : HeadResult × ℕ) (v : Option String) (etag : List ℕ)
      → (promote_absent nas h).result ≡ promoted v etag
      → ⊥
  unfolding promote_absent
  absent-result (got h, n) v etag e = cc
  absent-result (head_failed, n) v etag e = cc
  absent-result (head_raised, n) v etag e = cc

  -- A promotion that says "promoted" had a file, and verified it.
  pub promoted-Verified :
      (file : Option (List ℕ)) (v : Option String) (etag : List ℕ)
      → (promote_l1 nas digest file).result ≡ promoted v etag
      → (bytes : List ℕ) × (file ≡ some bytes) × Verified bytes (promote_l1 nas digest (some bytes))
  unfolding Kept
  promoted-Verified none v etag e =
      absurd (absent-result (head_with_retry nas 0) v etag (unfold promote_l1 in e))
  promoted-Verified (some bytes) v etag e = elim (promote_l1-Safe bytes) [
    | inr verified ↦ (bytes, refl, verified)
    | inl (kept, inl failed) ↦ absurd (cc (e, failed))
    | inl (kept, inr failed) ↦ absurd (cc (e, failed))
  ]

  guard-requests :
      (h : Head) (bytes : List ℕ) (out : HeadResult × ℕ)
      → (guard_and_delete nas h bytes out).requests ≡ out.1
  unfolding guard_and_delete
  guard-requests h bytes (got g, n) = ground arith
  guard-requests h bytes (head_failed, n) = refl
  guard-requests h bytes (head_raised, n) = refl

  verify-requests :
      (bytes : List ℕ) (out : HeadResult × ℕ)
      → out.1 ≤ 2
      → (verify_local nas digest bytes out).requests ≤ 4
  unfolding verify_local head_with_retry
  verify-requests bytes (got h, n) few =
      ground (arith, guard-requests h bytes (head_attempts nas 2 n), head_attempts-le nas 2 n)
  verify-requests bytes (head_failed, n) few = omega arith
  verify-requests bytes (head_raised, n) few = omega arith

  absent-requests : (out : HeadResult × ℕ) → (promote_absent nas out).requests ≡ out.1
  unfolding promote_absent
  absent-requests (got h, n) = refl
  absent-requests (head_failed, n) = refl
  absent-requests (head_raised, n) = refl

  -- A call makes four HEAD requests at most, whatever the answers, and two when there is no local
  -- file.
  pub promote_l1-requests :
      (bytes : List ℕ)
      → ((promote_l1 nas digest (some bytes)).requests ≤ 4)
        × ((promote_l1 nas digest none).requests ≤ 2)
  unfolding promote_l1 head_with_retry
  promote_l1-requests bytes = (
    verify-requests bytes (head_attempts nas 2 0) (head_attempts-le nas 2 0),
    omega (arith, absent-requests (head_attempts nas 2 0), head_attempts-le nas 2 0),
  )

  same_etag_refl : (a : List ℕ) → same_etag a a ≡ true
  unfolding same_etag
  same_etag_refl [] = refl
  same_etag_refl (c ∷ cs) = ground (arith, same_etag_refl cs)

  -- What a success leaves.
  abbrev Succeeds : Head → PromotionRun → Type 0
  Succeeds h run = (run.result ≡ promoted h.version_id h.etag) × (run.local_file ≡ none)

  guard-Succeeds :
      (h : Head) (bytes : List ℕ) (out : HeadResult × ℕ)
      → out.0 ≡ got h
      → Succeeds h (guard_and_delete nas h bytes out)
  unfolding guard_and_delete
  guard-Succeeds h bytes (got g, n) e =
      let same : g ≡ h = ground arith in rw same (ground (arith, same_etag_refl h.etag))
  guard-Succeeds h bytes (head_failed, n) e = absurd (ground arith)
  guard-Succeeds h bytes (head_raised, n) e = absurd (ground arith)

  verify-Succeeds :
      (h : Head) (bytes : List ℕ) (out : HeadResult × ℕ)
      → ((m : ℕ) → (head_with_retry nas m).0 ≡ got h)
      → sha_matches h.sha256 (digest bytes) ≡ true
      → h.content_length ≡ length bytes
      → out.0 ≡ got h
      → Succeeds h (verify_local nas digest bytes out)
  unfolding verify_local
  verify-Succeeds h bytes (got g, n) steady sha len e =
      let same : g ≡ h = ground arith in
      rw (same, sha, len)
        (ground (arith, guard-Succeeds h bytes (head_with_retry nas n) (steady n)))
  verify-Succeeds h bytes (head_failed, n) steady sha len e = absurd (ground arith)
  verify-Succeeds h bytes (head_raised, n) steady sha len e = absurd (ground arith)

  -- With an object that stays the same, has the file's length and, if any, its digest, and answers
  -- after one connection error in a row at most, the promotion succeeds and the file is deleted.
  pub promote_l1-succeeds :
      (h : Head) (bytes : List ℕ)
      → ((m : ℕ) → (nas m ≡ head_ok h) ⊎ ((nas m ≡ unreachable) × (nas (m + 1) ≡ head_ok h)))
      → sha_matches h.sha256 (digest bytes) ≡ true
      → h.content_length ≡ length bytes
      → ((promote_l1 nas digest (some bytes)).result ≡ promoted h.version_id h.etag)
        × ((promote_l1 nas digest (some bytes)).local_file ≡ none)
  unfolding promote_l1
  promote_l1-succeeds h bytes steady sha len =
      verify-Succeeds h bytes (head_with_retry nas 0) (λ m. head_with_retry-succeeds nas h m steady)
        sha len (head_with_retry-succeeds nas h 0 steady)
