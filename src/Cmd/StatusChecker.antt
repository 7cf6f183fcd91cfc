-- ===== src/Cmd/StatusChecker.antt =====
-- main of cmd/event-status-checker, after its connection has been made: a first check, whose error
-- is only logged, then the periodic ones.
use lewly_pgpyewj.Prelude.{ℕ}
use lewly_pgpyewj.Effect.{Exec, ignore, ◌>>◌}
use lewly_pgpyewj.Service.Events.{check_and_update_expired_events, run_periodic_check}

-- up to the shutdown, `ticks` intervals later
unfoldable pub run : ℕ → Exec (Unit {0})
run ticks = do ignore check_and_update_expired_events; run_periodic_check ticks
