-- ===== src/RetryQueue/Select.antt =====
-- Rows of the table: membership, deletion, selection by state and order by time.
use mctrader_data.Prelude.{
  String, ◌≡◌, ◌⊎◌, inl, inr, Bool, List, [], ◌∷◌, arith, leb, str_eq, eq_iff, Bool-cases,
}
use mctrader_data.Prelude.Dict.{string_eq}
use mctrader_data.RetryQueue.{Row, delete_row, select, insert_by_ts, order_by_ts}

abbrev pub Has : Row → List Row → Type 0
Has r [] = ⊥
Has r (s ∷ rs) = (r ≡ s) ⊎ Has r rs

pub Has-delete_row :
    (r : Row) (id : String) (rows : List Row)
    → Has r rows
    → Has r (delete_row id rows) ⊎ (id ≡ r.id)
unfolding delete_row
Has-delete_row r id [] h = elim h [ ]
Has-delete_row r id (s ∷ rs) (inl here) = ground (arith, eq_iff s.id id)
Has-delete_row r id (s ∷ rs) (inr there) = ground (arith, Has-delete_row r id rs there)

pub Has-cons {ℓ} :
    {A : Type ℓ} (r s : Row) (rs : List Row) → (Has r rs → A) → (r ≡ s → A) → Has r (s ∷ rs) → A
Has-cons r s rs f g (inl here) = g here
Has-cons r s rs f g (inr there) = f there

pub Has-of_delete_row :
    (r : Row) (id : String) (rows : List Row) → Has r (delete_row id rows) → Has r rows
unfolding delete_row
Has-of_delete_row r id [] h = h
Has-of_delete_row r id (s ∷ rs) h = elim (Bool-cases (str_eq s.id id)) [
  | inl same ↦ inr (Has-of_delete_row r id rs (rw (same, delete_row) at h))
  | inr other ↦
      Has-cons r s (delete_row id rs) (λ there. inr (Has-of_delete_row r id rs there)) inl
        (rw (other, delete_row) at h)
]

-- Every row of the list is in the table.
abbrev pub Within : List Row → List Row → Type 0
Within rs rows = (r : Row) → Has r rs → Has r rows

pub Has-of_select : (p : Row → Bool) (rs : List Row) → Within (select p rs) rs
unfolding select
Has-of_select p [] r h = h
Has-of_select p (s ∷ rs) r h = elim (Bool-cases (p s)) [
  | inl taken ↦
      Has-cons r s (select p rs) (λ there. inr (Has-of_select p rs r there)) inl
        (rw (taken, select) at h)
  | inr other ↦ inr (Has-of_select p rs r (rw (other, select) at h))
]

Has-of_insert_by_ts : (s : Row) (rs : List Row) → Within (insert_by_ts s rs) (s ∷ rs)
unfolding insert_by_ts
Has-of_insert_by_ts s [] r h = h
Has-of_insert_by_ts s (x ∷ rs) r h = elim (Bool-cases (leb s.enqueue_ts x.enqueue_ts)) [
  | inl first ↦ rw (first, insert_by_ts) at h
  | inr later ↦
      Has-cons r x (insert_by_ts s rs)
        (λ there. Has-cons r s rs (λ k. inr (inr k)) inl (Has-of_insert_by_ts s rs r there))
        (λ e. inr (inl e)) (rw (later, insert_by_ts) at h)
]

pub Has-of_order_by_ts : (rs : List Row) → Within (order_by_ts rs) rs
unfolding order_by_ts
Has-of_order_by_ts [] r h = h
Has-of_order_by_ts (s ∷ rs) r h =
    Has-cons r s (order_by_ts rs) (λ there. inr (Has-of_order_by_ts rs r there)) inl
      (Has-of_insert_by_ts s (order_by_ts rs) r h)
