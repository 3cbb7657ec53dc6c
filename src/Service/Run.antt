-- ===== src/Service/Run.antt =====
-- `checkAndCompleteRouteRun` of backend/src/domains/routeRun/routeRunService.ts
pub mod Finish
pub mod Routes
pub mod Stays
pub mod Life
pub mod Assigned
pub mod Reopened
mod Tests
use fieldpro_pilot.Base.{
  ℕ, Bool, true, false, ◌&&◌, some, List, count, update_where, if◌then◌else◌, ltb, ◌==◌,
}
use fieldpro_pilot.Service.{
  Db, RouteRun, RouteRunStop, RunStatus, run_finished, run_completed, is_open, is_closed, coalesce,
}

abbrev pub is_over : RunStatus → Bool
is_over run_finished = true
is_over run_completed = true
is_over _ = false

unfoldable pub pending_count : ℕ → List RouteRunStop → ℕ
pending_count run stops = count (λ s. s.route_run_id == run && is_open s.status) stops

unfoldable pub completed_count : ℕ → List RouteRunStop → ℕ
completed_count run stops = count (λ s. s.route_run_id == run && is_closed s.status) stops

unfoldable pub finish : ℕ → ℕ → List RouteRun → List RouteRun
finish now run runs =
    update_where (λ r. if is_over r.status then false else r.id == run)
      (λ r. record r {
        status = run_finished;
        finished_at = coalesce r.finished_at (some now);
        updated_at = some now;
      })
      runs

unfoldable pub check_and_complete_route_run : ℕ → ℕ → Db → Db
unfolding pending_count completed_count finish
check_and_complete_route_run now run db =
    if pending_count run db.stops == 0 && ltb 0 (completed_count run db.stops)
    then record db { runs = finish now run db.runs }
    else db
