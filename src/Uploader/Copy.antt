-- ===== src/Uploader/Copy.antt =====
-- copy_object, where both objects are there and carry a digest.
use mctrader_data.Prelude.{
  String, false, ◌≡◌, refl, ◌⊎◌, inl, inr, some, str_eq, Bool-cases, if◌then◌else◌,
}
use mctrader_data.Uploader.{
  CopyStatus, already_exists_idempotent, dst_conflict, UploadError, client_error,
  endpoint_unreachable, other_exception, Outcome, returned, raised, HeadReply, object_at,
  head_error, head_unreachable, head_other, Client, compare_digests, copy_after_dst, copy_after_src,
  copy_object,
}

-- The answers to a HEAD of an object that carries the digest.
abbrev pub Truthful : String → HeadReply → Type 0
Truthful d (object_at o) = o ≡ some d
Truthful d (head_error code) = str_eq code "404" ≡ false
Truthful d head_unreachable = Unit
Truthful d head_other = Unit

-- What the code relies on of the store: a HEAD of an object with a digest shows it or fails, and a
-- HEAD changes no digest.
pub record ReadLaws {S : Type 0} (client : Client S) (Labelled : String → String → S → Type 0)
    : Type 0 where
  pub truthful :
      (key d : String) (s : S) → Labelled key d s → Truthful d (client.head_object key s).0
  pub keeps :
      (key d other : String) (s : S)
      → Labelled key d s
      → Labelled key d (client.head_object other s).1

module _ {S : Type 0} (client : Client S) (Labelled : String → String → S → Type 0)
    (laws : ReadLaws client Labelled) (src_key dst_key d e : String) where
  -- The outcome of a copy onto an object that is there.
  abbrev pub Refuses : Outcome CopyStatus × S → Type 0
  Refuses run =
      (Labelled src_key d run.1 × Labelled dst_key e run.1)
      × ((run.0 ≡ returned (if str_eq d e then already_exists_idempotent else dst_conflict))
          ⊎ ((failure : UploadError) × (run.0 ≡ raised failure)))

  after_dst :
      (h : HeadReply) (t : S)
      → Truthful e h
      → Labelled src_key d t
      → Labelled dst_key e t
      → Refuses (copy_after_dst client src_key dst_key (some d) (h, t))
  unfolding copy_after_dst compare_digests
  after_dst (object_at o) t shown a b = rw shown (elim (Bool-cases (str_eq d e)) [
    | inl same ↦ rw (same, compare_digests) ((a, b), inl refl)
    | inr differs ↦ rw (differs, compare_digests) ((a, b), inl refl)
  ])
  after_dst (head_error code) t shown a b = rw shown ((a, b), inr (client_error code, refl))
  after_dst head_unreachable t shown a b = ((a, b), inr (endpoint_unreachable, refl))
  after_dst head_other t shown a b = ((a, b), inr (other_exception, refl))

  after_src :
      (h : HeadReply) (t : S)
      → Truthful d h
      → Labelled src_key d t
      → Labelled dst_key e t
      → Refuses (copy_after_src client src_key dst_key (h, t))
  unfolding copy_after_src
  after_src (object_at o) t shown a b = rw shown (
      after_dst (client.head_object dst_key t).0 (client.head_object dst_key t).1
        (laws.truthful dst_key e t b) (laws.keeps src_key d dst_key t a)
        (laws.keeps dst_key e dst_key t b))
  after_src (head_error code) t shown a b = rw shown ((a, b), inr (client_error code, refl))
  after_src head_unreachable t shown a b = ((a, b), inr (endpoint_unreachable, refl))
  after_src head_other t shown a b = ((a, b), inr (other_exception, refl))

  -- For a store whose HEAD shows the digest of an object that has one, or fails, and changes no
  -- digest: a copy of an object with a digest onto one with a digest writes nothing. Both objects
  -- keep their digests, and the answer is "already_exists_idempotent" when the digests are equal,
  -- "dst_conflict" when they are not, or an exception.
  pub copy_object-Refuses :
      (s : S)
      → Labelled src_key d s
      → Labelled dst_key e s
      → Refuses (copy_object client src_key dst_key s)
  unfolding copy_object
  copy_object-Refuses s a b =
      after_src (client.head_object src_key s).0 (client.head_object src_key s).1
        (laws.truthful src_key d s a) (laws.keeps src_key d src_key s a)
        (laws.keeps dst_key e src_key s b)
