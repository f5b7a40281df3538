-- ===== src/Promotion/Tests.antt =====
-- A store that fails to connect once and then shows an object of two bytes.
use mctrader_data.Prelude.{
  ℕ, zero, suc, ◌+◌, String, ◌≡◌, ◌⊎◌, refl, inl, inr, true, none, some, List, [], ◌∷◌,
}
use mctrader_data.Promotion.{
  Head, HeadAnswer, head_ok, client_error, unreachable, already_promoted, verify_error, strip_left,
  reverse_onto, strip_quotes, same_etag, head_attempts, head_with_retry, promote_absent,
  guard_and_delete, sha_matches, verify_local, promote_l1,
}
use mctrader_data.Promotion.Safety.{Verified, Kept, promote_l1-Safe}

abbrev object : Head
object = record {
  etag = 34 ∷ 97 ∷ 34 ∷ [];
  version_id = none;
  sha256 = some "d";
  content_length = 2;
}

abbrev store : ℕ → HeadAnswer
store zero = unreachable
store (suc n) = head_ok object

abbrev digest : List ℕ → String
digest bytes = "d"

promote_l1-Safe_example :
    Kept store digest (1 ∷ 2 ∷ []) (promote_l1 store digest (some (1 ∷ 2 ∷ [])))
    ⊎ Verified store digest (1 ∷ 2 ∷ []) (promote_l1 store digest (some (1 ∷ 2 ∷ [])))
promote_l1-Safe_example = promote_l1-Safe store digest (1 ∷ 2 ∷ [])

store-steady :
    (m : ℕ)
    → (store m ≡ head_ok object) ⊎ ((store m ≡ unreachable) × (store (m + 1) ≡ head_ok object))
store-steady zero = inr (refl, refl)
store-steady (suc n) = inl refl

sha_agrees : sha_matches object.sha256 (digest (1 ∷ 2 ∷ [])) ≡ true
unfolding sha_matches
sha_agrees = refl

-- Without a file the ETag is given without quotes; a file of another length, and a missing object,
-- keep the file.
scenario :
    ((promote_l1 store digest none).result ≡ already_promoted none (97 ∷ []))
    × ((promote_l1 store digest (some (1 ∷ []))).result ≡ verify_error)
    × ((promote_l1 (λ n. client_error) digest (some (1 ∷ []))).local_file ≡ some (1 ∷ []))
    × ((promote_l1 (λ n. unreachable) digest (some (1 ∷ []))).requests ≡ 2)
unfolding strip_left reverse_onto strip_quotes head_attempts head_with_retry promote_absent
    sha_matches verify_local promote_l1 guard_and_delete same_etag
scenario = (refl, refl, refl, refl)
