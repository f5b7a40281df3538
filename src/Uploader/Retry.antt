-- ===== src/Uploader/Retry.antt =====
-- enqueue_retry leaves the bucket alone.
use mctrader_data.Prelude.{String, ◌≡◌, refl, inl, inr, Option-cases}
use mctrader_data.RetryQueue.{
  Bytes, Queue, EnqueueResult, ok, hard_floor_blocked as floor_reached, insert_raised, enqueue,
}
use mctrader_data.Uploader.{Client, Nas, Insertion, keep_queue, enqueue_retry}

module _ {S : Type 0} (client : Client S) (retry : Insertion) (nas_key sha256 : String) where
  keep_queue-store :
      (n : Nas S) (e : EnqueueResult × Queue) → (keep_queue client n e).1.store ≡ n.store
  unfolding keep_queue
  keep_queue-store n (ok id, q) = refl
  keep_queue-store n (floor_reached, q) = refl
  keep_queue-store n (insert_raised, q) = refl

  pub enqueue_retry-store :
      (bytes : Bytes) (n : Nas S)
      → (enqueue_retry client retry nas_key bytes sha256 n).1.store ≡ n.store
  unfolding enqueue_retry
  enqueue_retry-store bytes n = elim (Option-cases n.retry_queue) [
    | inl alone ↦ rw (alone, enqueue_retry) refl
    | inr (q, found) ↦
        rw (found, enqueue_retry)
          (keep_queue-store n (enqueue retry.commits retry.item_id retry.ts nas_key bytes sha256 q))
  ]
