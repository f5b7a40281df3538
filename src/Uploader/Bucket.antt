-- ===== src/Uploader/Bucket.antt =====
-- A bucket for tests: a dictionary from keys to the digests of their objects, always within reach.
use mctrader_data.Prelude.{String, ◌≡◌, ap, subst, Option, none, some, [], arith}
use mctrader_data.Prelude.Dict.{Dict, string_eq, lookup, insert, erase, lookup-insert_self}
use mctrader_data.RetryQueue.{Queue}
use mctrader_data.Uploader.{
  HeadReply, object_at, head_error, WriteReply, stored, write_error, Client,
}
use mctrader_data.Uploader.Put.{Laws}

abbrev pub Bucket : Type 0
Bucket = Dict String (Option String)

unfoldable pub show : Option (Option String) → HeadReply
show none = head_error "404"
show (some o) = object_at o

unfoldable pub copy_label : String → Bucket → Option (Option String) → WriteReply × Bucket
copy_label dst s none = (write_error "404", s)
copy_label dst s (some o) = (stored, insert dst o s)

abbrev pub client : Client Bucket
client = record {
  head_object = λ key s. (show (lookup key s), s);
  put_object = λ key body d s. (stored, insert key (some d) s);
  upload_fileobj = λ key body d s. (stored, insert key (some d) s);
  copy_object = λ src dst s. copy_label dst s (lookup src s);
  delete_object = λ key s. (stored, erase key s);
}

abbrev pub Labelled : String → String → Bucket → Type 0
Labelled key d s = lookup key s ≡ some (some d)

show-shown :
    (o : Option (Option String)) (d : String) → show o ≡ object_at (some d) → o ≡ some (some d)
unfolding show
show-shown none d h = absurd (ground arith)
show-shown (some o) d h = ground arith

pub client-Laws : Laws client Labelled
client-Laws = record {
  shown = λ key d s t h.
      subst (λ z. lookup key z ≡ some (some d)) (ap (λ r. r.1) h)
        (show-shown (lookup key s) d (ap (λ r. r.0) h));
  put_stored = λ key body d s t h.
      subst (λ z. lookup key z ≡ some (some d)) (ap (λ r. r.1) h)
        (lookup-insert_self key (some d) s);
  upload_stored = λ key body d s t h.
      subst (λ z. lookup key z ≡ some (some d)) (ap (λ r. r.1) h)
        (lookup-insert_self key (some d) s);
}

abbrev pub empty_queue : Queue
empty_queue = record { max_segments = 2; max_bytes = 100; hard_floor = 1; rows = []; payloads = [] }
