-- ===== src/Clients/Postgres/Pages.antt =====
-- The pages of metrics.
use kava_proxy_service.Base.{
  ℕ, zero, suc, ◌<◌, List, [], ◌∷◌, map, length, none, false, ok, ℤ, pos, ◌≡◌, ap, ◌∙◌,
  if◌then◌else◌, ◌==◌, arith,
}
use kava_proxy_service.Clients.Postgres.Rows.{
  MetricRow, Queries, to_proxied_request_metric, last_id, next_cursor, page, list_metrics,
}

abbrev pub first_rows : ℕ → List MetricRow → List MetricRow
first_rows zero rows = []
first_rows (suc n) [] = []
first_rows (suc n) (row ∷ rows) = row ∷ first_rows n rows

-- ScanAndCount gives the first rows up to the limit, and counts the rows without the limit.
-- `rows_after` are the rows behind a cursor, in their order.
abbrev pub IsPage : {D : Type 0} → Queries D → (ℤ → D → List MetricRow) → ℤ → ℕ → D → Type 0
IsPage queries rows_after cursor limit d =
    (queries.scan_and_count cursor (pos limit) d)
    ≡ (d, first_rows limit (rows_after cursor d), pos (length (rows_after cursor d)), none)

other_count : (count limit : ℕ) → limit < count → (count == limit) ≡ false
other_count count limit h = ground arith

-- If more rows lie behind the cursor than the limit, then the page has the first of them and the
-- cursor 0, which says that there are no more pages, although there are. The hypothesis says that
-- ScanAndCount gives the first rows up to the limit, and the number of all rows behind the cursor.
pub further_pages_lost :
    {D : Type 0} (queries : Queries D) (rows_after : ℤ → D → List MetricRow) (cursor : ℤ)
    (limit : ℕ) (d : D)
    → IsPage queries rows_after cursor limit d
    → limit < length (rows_after cursor d)
    → list_metrics queries cursor (pos limit) d
      ≡ (d, ok (map to_proxied_request_metric (first_rows limit (rows_after cursor d)), pos 0))
unfolding list_metrics next_cursor
further_pages_lost queries rows_after cursor limit d scanned more =
    ap (λ r. (r.0, page r.1 r.3 (next_cursor r.1 r.2 (pos limit)))) scanned
    ∙ ap
        (λ b. (
          d,
          page (first_rows limit (rows_after cursor d)) none (
              if b
              then last_id (first_rows limit (rows_after cursor d))
                  (pos (length (rows_after cursor d)))
              else ok (pos 0)),
        ))
        (other_count (length (rows_after cursor d)) limit more)
