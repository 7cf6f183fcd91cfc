-- ===== src/Store/Analytics.antt =====
-- internal/store/analytics.go
use lewly_pgpyewj.Prelude.{ℕ, Bool, ◌&&◌, Time, count_where}
use lewly_pgpyewj.Db.{BookingRow, BookingStatus, is_booked, is_cancelled}
use lewly_pgpyewj.Effect.{Exec, query}
use lewly_pgpyewj.Store.Admin.{between}

pub record Analytics : Type 0 where
  pub total_bookings : ℕ
  pub cancellations : ℕ

-- the rows of the WHERE clause with a status
abbrev pub created_with : (BookingStatus → Bool) → Time → Time → BookingRow → Bool
created_with is_status from to b = between from to b.created_at && is_status b.status

-- Summary
unfoldable pub summary : Time → Time → Exec Analytics
summary from to = query (λ d. record {
  total_bookings = count_where (created_with is_booked from to) d.bookings;
  cancellations = count_where (created_with is_cancelled from to) d.bookings;
})
