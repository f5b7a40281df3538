-- ===== src/RetryQueue/Tests.antt =====
-- A queue with room for two pending segments and three rows in all.
use mctrader_data.Prelude.{ℕ, ◌≤◌, String, ◌≡◌, refl, ◌⊎◌, inl, true, false, [], ◌∷◌, arith}
use mctrader_data.Prelude.Dict.{string_eq, lookup, insert, erase}
use mctrader_data.RetryQueue.{
  Bytes, Row, Queue, PutResult, uploaded, throttled, is_pending, is_active, count_where,
  bytes_where, depth, total_bytes, oldest_pending, earlier, set_quarantined, quarantine_oldest,
  threshold_breached, payload_filename, new_row, enqueue, delete_row, answer_put, succeed, fail_one,
  skip_one, throttle, drain_row, drain_rows, select, insert_by_ts, order_by_ts, drain_start,
  first_cycle, is_quarantined, drain,
}
use mctrader_data.RetryQueue.Enqueue.{Keeps, enqueue-Keeps, depth-enqueue-le}
use mctrader_data.RetryQueue.Select.{Has}
use mctrader_data.RetryQueue.Drain.{Uploaded, Has-drain}

abbrev empty : Queue
empty = record { max_segments = 2; max_bytes = 100; hard_floor = 3; rows = []; payloads = [] }

abbrev push : String → ℕ → Queue → Queue
push id ts q = (enqueue true id ts "k" (1 ∷ 2 ∷ []) "s" q).1

abbrev two : Queue
two = push "b" 20 (push "a" 10 empty)

-- The second segment of the backlog is throttled, the rest is taken.
abbrev answers : Row → Bytes → PutResult
answers r bytes = elim (is_pending r) [ true ↦ throttled | false ↦ uploaded ]

abbrev row_a : Row
row_a = new_row "k" (1 ∷ 2 ∷ []) "s" "a" 10

enqueue-Keeps_example :
    Keeps true "c" 30 "k" (5 ∷ []) "s" two (enqueue true "c" 30 "k" (5 ∷ []) "s" two)
enqueue-Keeps_example = enqueue-Keeps true "c" 30 "k" (5 ∷ []) "s" two

depth-enqueue-le_example :
    depth true (enqueue true "c" 30 "k" (5 ∷ []) "s" empty).1
    ≤ (enqueue true "c" 30 "k" (5 ∷ []) "s" empty).1.hard_floor
unfolding depth count_where
depth-enqueue-le_example = depth-enqueue-le true "c" 30 "k" (5 ∷ []) "s" empty (omega arith)

abbrev stored : Queue
stored = record empty { rows = row_a ∷ []; payloads = (payload_filename "a", 1 ∷ 2 ∷ []) ∷ [] }

Has-drain_example :
    Has row_a (drain answers stored).queue.rows
    ⊎ Uploaded answers row_a.id stored.rows stored.payloads
Has-drain_example = Has-drain answers stored row_a (inl refl)

-- The third segment demotes the first; the fourth is blocked; then the demoted one is uploaded.
scenario :
    (depth false (push "c" 30 two) ≡ 2)
    × (depth true (push "d" 40 (push "c" 30 two)) ≡ 3)
    × (total_bytes true (push "c" 30 two) ≡ 6)
    × ((drain answers (push "c" 30 two)).stats.drained ≡ 1)
    × ((drain answers (push "c" 30 two)).slept ≡ 2 ∷ 1 ∷ [])
unfolding enqueue count_where is_active is_pending threshold_breached bytes_where quarantine_oldest
    oldest_pending earlier set_quarantined payload_filename new_row depth total_bytes drain
    first_cycle drain_start order_by_ts insert_by_ts select is_quarantined drain_rows drain_row
    answer_put succeed fail_one skip_one throttle delete_row lookup insert erase
scenario = (refl, refl, refl, refl, refl)
