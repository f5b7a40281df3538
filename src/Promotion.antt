-- ===== src/Promotion.antt =====
-- src/mctrader_data/compactor/promotion.py: promote_l1 and its HEAD requests. The object store is a
-- parameter, the answer to each request in their order; the digest is a parameter too. An ETag is
-- the list of its characters' codes. Nobody else writes the local file during a call.
mod Attempts
pub mod Safety
mod Tests
use mctrader_data.Prelude.{
  ℕ, suc, zero, ◌+◌, String, Bool, true, false, ◌&&◌, not, Option, none, some, List, [], ◌∷◌, ◌++◌,
  ◌==◌, if◌then◌else◌, str_eq, length,
}

-- The dict that NASUploader.head_object returns.
pub record Head : Type 0 where
  pub etag : List ℕ
  pub version_id : Option String
  pub sha256 : Option String
  pub content_length : ℕ

-- A dict, a ClientError (404 or not), an EndpointConnectionError, any other exception.
pub data HeadAnswer : Type 0 where
  head_ok : Head → HeadAnswer
  client_error : HeadAnswer
  unreachable : HeadAnswer
  other_exception : HeadAnswer

-- What `_head_with_retry` returns or raises.
pub data HeadResult : Type 0 where
  got : Head → HeadResult
  head_failed : HeadResult
  head_raised : HeadResult

-- PromotionResult, PromotionVerifyError, or an exception that is passed on.
pub data Promotion : Type 0 where
  promoted : Option String → List ℕ → Promotion
  already_promoted : Option String → List ℕ → Promotion
  verify_error : Promotion
  raised : Promotion

-- What a call leaves: its result, the local file, and the number of HEAD requests so far.
pub record PromotionRun : Type 0 where
  pub result : Promotion
  pub local_file : Option (List ℕ)
  pub requests : ℕ

-- str.strip('"')
unfoldable pub strip_left : List ℕ → List ℕ
strip_left [] = []
strip_left (c ∷ cs) = let rest = strip_left cs in if c == 34 then rest else c ∷ cs

unfoldable pub reverse_onto : List ℕ → List ℕ → List ℕ
reverse_onto [] acc = acc
reverse_onto (c ∷ cs) acc = reverse_onto cs (c ∷ acc)

unfoldable pub strip_quotes : List ℕ → List ℕ
strip_quotes s = reverse_onto (strip_left (reverse_onto (strip_left s) [])) []

unfoldable pub same_etag : List ℕ → List ℕ → Bool
same_etag [] [] = true
same_etag [] (d ∷ ds) = false
same_etag (c ∷ cs) [] = false
same_etag (c ∷ cs) (d ∷ ds) = let rest = same_etag cs ds in if c == d then rest else false

-- _HEAD_RETRY_COUNT
abbrev pub head_retry_count : ℕ
head_retry_count = 1

-- No digest in the metadata counts as a match.
unfoldable pub sha_matches : Option String → String → Bool
sha_matches none digest = true
sha_matches (some s) digest = str_eq s digest

module _ (nas : ℕ → HeadAnswer) where
  -- The while loop with so many attempts left, from the request with this number.
  unfoldable pub head_attempts : ℕ → ℕ → HeadResult × ℕ
  head_attempts zero n = (head_failed, n)
  head_attempts (suc left) n = elim (nas n) [
    | head_ok h ↦ (got h, n + 1)
    | client_error ↦ (head_failed, n + 1)
    | unreachable ↦ head_attempts left (n + 1)
    | other_exception ↦ (head_raised, n + 1)
  ]

  unfoldable pub head_with_retry : ℕ → HeadResult × ℕ
  head_with_retry n = head_attempts (1 + head_retry_count) n

  -- The local file is absent.
  unfoldable pub promote_absent : HeadResult × ℕ → PromotionRun
  promote_absent (got h, n) = record {
    result = already_promoted h.version_id (strip_quotes h.etag);
    local_file = none;
    requests = n;
  }
  promote_absent (head_failed, n) = record {
    result = verify_error;
    local_file = none;
    requests = n;
  }
  promote_absent (head_raised, n) = record { result = raised; local_file = none; requests = n }

  -- The pre-delete guard, and the unlink.
  unfoldable pub guard_and_delete : Head → List ℕ → HeadResult × ℕ → PromotionRun
  guard_and_delete h bytes (got g, n) =
      if not (same_etag g.etag h.etag && (g.content_length == h.content_length))
      then record { result = verify_error; local_file = some bytes; requests = n }
      else record { result = promoted h.version_id h.etag; local_file = none; requests = n }
  guard_and_delete h bytes (head_failed, n) = record {
    result = verify_error;
    local_file = some bytes;
    requests = n;
  }
  guard_and_delete h bytes (head_raised, n) = record {
    result = raised;
    local_file = some bytes;
    requests = n;
  }

  -- The local file is there, and the first HEAD has been answered.
  unfoldable pub verify_local : (List ℕ → String) → List ℕ → HeadResult × ℕ → PromotionRun
  verify_local digest bytes (got h, n) =
      if sha_matches h.sha256 (digest bytes) && (h.content_length == length bytes)
      then guard_and_delete h bytes (head_with_retry n)
      else record { result = verify_error; local_file = some bytes; requests = n }
  verify_local digest bytes (head_failed, n) = record {
    result = verify_error;
    local_file = some bytes;
    requests = n;
  }
  verify_local digest bytes (head_raised, n) = record {
    result = raised;
    local_file = some bytes;
    requests = n;
  }

  unfoldable pub promote_l1 : (List ℕ → String) → Option (List ℕ) → PromotionRun
  promote_l1 digest none = promote_absent (head_with_retry 0)
  promote_l1 digest (some bytes) = verify_local digest bytes (head_with_retry 0)
