-- ===== src/Service/Start/Handlers.antt =====
-- The two handlers of `POST /route-run-stops/:id/start`: the one of
-- backend/src/modules/routes/routeRunRoutes.ts, and the stricter one of
-- backend/src/modules/work/routeRunStopRoutes.ts. The run that the first loads for its answer is left
-- out; ids of runs are positive, so that its last fallback is never taken.
use fieldpro_pilot.Base.{ℕ, Option, none, some, List, [], ◌∷◌, Text}
use fieldpro_pilot.Service.{
  Db, Services, RouteRunStop, StopStatus, pending, planned, assigned, in_progress,
}
use fieldpro_pilot.Service.Start.{
  StartResult, not_found, unchanged, updated, start_route_run_stop_internal,
}

-- the answers of the handlers: 200 with the run or the row, 401, 404, 409 and 500
pub data StartResponse : Type 0 where
  started_run : ℕ → StartResponse
  started_row : RouteRunStop → StartResponse
  start_conflict : StopStatus → StartResponse
  no_identity stop_missing not_pending start_failed : StartResponse

-- the answer for a row that was not updated
unfoldable pub settled_start : RouteRunStop → StopStatus → StartResponse
settled_start row in_progress = started_run row.route_run_id
settled_start row status = start_conflict status

unfoldable pub start_answer : Option StartResult → StartResponse
unfolding settled_start
start_answer none = start_failed
start_answer (some not_found) = stop_missing
start_answer (some (unchanged row)) = settled_start row row.status
start_answer (some (updated row)) = started_run row.route_run_id

unfoldable pub start_row_answer : Option StartResult → StartResponse
start_row_answer none = start_failed
start_row_answer (some not_found) = not_pending
start_row_answer (some (unchanged row)) = not_pending
start_row_answer (some (updated row)) = started_row row

abbrev pub startable : List StopStatus
startable = pending ∷ planned ∷ assigned ∷ []

module _ (svc : Services) where
  -- `actor` is none where the claims have no `oid` or an empty one
  unfoldable pub start_handler : ℕ → Option Text → Db → Db × StartResponse
  unfolding start_answer
  start_handler id none db = (db, no_identity)
  start_handler id (some actor) db =
      let result = start_route_run_stop_internal svc id actor startable db in
      (result.0, start_answer result.1)

  unfoldable pub start_pending_handler : ℕ → Text → Db → Db × StartResponse
  unfolding start_row_answer
  start_pending_handler id actor db =
      let result = start_route_run_stop_internal svc id actor (pending ∷ []) db in
      (result.0, start_row_answer result.1)
