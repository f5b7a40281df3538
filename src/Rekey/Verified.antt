-- ===== src/Rekey/Verified.antt =====
-- What the check by two HEADs, _verify_4head, lets pass, and the entries that stand past it.
use mctrader_data.Prelude.{
  String, Bool, true, false, ◌≡◌, refl, inl, inr, Option, none, some, str_eq, ◌∙◌, eq_iff,
  Bool-cases, arith, ◌&&◌,
}
use mctrader_data.Promotion.{Head}
use mctrader_data.Uploader.{Client}
use mctrader_data.Rekey.{
  Status, at_verified, at_deleting, Entry, FullReply, full, full_error, full_raised, is_truthy,
  digests_pass, heads_pass, is_absent, Verdict, passes, verdict_of, verify_dst, verify_src,
}

-- The answers to the two HEADs show the same digest and the same length, and a version of the copy.
pub record SameObject (src : Head) (dst : Head) : Type 0 where
  pub digest : String
  pub src_digest : src.sha256 ≡ some digest
  pub dst_digest : dst.sha256 ≡ some digest
  pub same_length : src.content_length ≡ dst.content_length
  pub has_version : is_truthy dst.version_id ≡ true

pub record IsVerified (e : Entry) : Type 0 where
  pub src : Head
  pub dst : Head
  pub has_src : e.old_head ≡ some src
  pub has_dst : e.new_head ≡ some dst
  pub same : SameObject src dst

-- Past Step B, so that a new sweep goes on at Step C.
abbrev pub WellFormedAt : Status → Entry → Type 0
WellFormedAt at_verified e = IsVerified e
WellFormedAt at_deleting e = IsVerified e
WellFormedAt _ e = Unit

abbrev pub WellFormed : Entry → Type 0
WellFormed e = WellFormedAt e.status e

pub IsVerified-moves :
    (e f : Entry) → IsVerified e → f.old_head ≡ e.old_head → f.new_head ≡ e.new_head → IsVerified f
IsVerified-moves e f v p q = record {
  src = v.src;
  dst = v.dst;
  has_src = p ∙ v.has_src;
  has_dst = q ∙ v.has_dst;
  same = v.same;
}

digests_pass-same :
    (a b : Option String)
    → digests_pass a b ≡ true
    → (is_absent a && is_absent b) ≡ false
    → (d : String) × (a ≡ some d) × (b ≡ some d)
unfolding digests_pass is_absent
digests_pass-same none none p q = absurd (ground arith)
digests_pass-same none (some b) p q = absurd (ground arith)
digests_pass-same (some a) none p q = absurd (ground arith)
digests_pass-same (some a) (some b) p q = (a, refl, ground (arith, eq_iff a b))

pub heads_pass-SameObject :
    (src dst : Head)
    → heads_pass src dst ≡ true
    → (is_absent src.sha256 && is_absent dst.sha256) ≡ false
    → SameObject src dst
unfolding heads_pass
heads_pass-SameObject src dst p q =
    let d : (d : String) × (src.sha256 ≡ some d) × (dst.sha256 ≡ some d) =
      digests_pass-same src.sha256 dst.sha256 (ground arith) q in
    record {
      digest = d.0;
      src_digest = d.1;
      dst_digest = d.2;
      same_length = ground arith;
      has_version = ground arith;
    }

-- What a verdict stands for.
abbrev pub Sound : Verdict → Type 0
Sound (passes src dst) = heads_pass src dst ≡ true
Sound _ = Unit

module _ {S : Type 0} (client : Client S) (head_full : String → S → FullReply × S)
    (dry_run : Bool) where
  verify_dst-Sound :
      (src : Head) (answer : FullReply × S)
      → Sound (verify_dst client head_full dry_run src answer).0
  unfolding verify_dst verdict_of
  verify_dst-Sound src (full dst, s) = elim (Bool-cases (heads_pass src dst)) [
    | inl ok ↦ rw (ok, verdict_of) ok
    | inr bad ↦ rw (bad, verdict_of) tt
  ]
  verify_dst-Sound src (full_error code, s) = tt
  verify_dst-Sound src (full_raised, s) = tt

  pub verify_src-Sound :
      (new_key : String) (answer : FullReply × S)
      → Sound (verify_src client head_full dry_run new_key answer).0
  unfolding verify_src
  verify_src-Sound new_key (full src, s) = verify_dst-Sound src (head_full new_key s)
  verify_src-Sound new_key (full_error code, s) = elim (Bool-cases (str_eq code "404")) [
    | inl gone ↦ rw gone tt
    | inr other ↦ rw other tt
  ]
  verify_src-Sound new_key (full_raised, s) = tt
