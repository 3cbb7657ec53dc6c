-- ===== src/Service/Run/Reopened.antt =====
-- Starting a run that was finished.
use fieldpro_pilot.Base.{
  ℕ, ◌≡◌, refl, ap, ◌∙◌, true, some, List, [], ◌∷◌, arith, find, any, update_where, Bool-cases,
  ◌==◌, inl, inr,
}
use fieldpro_pilot.Service.{Db, RouteRun, run_in_progress, run_completed}
use fieldpro_pilot.Service.Run.Routes.{
  is_run, run_started, run_finished_now, start_route_run, finish_route_run,
}

find-own :
    (id : ℕ) (f : RouteRun → RouteRun) (runs : List RouteRun) (r : RouteRun)
    → ((x : RouteRun) → (f x).id ≡ x.id)
    → find (is_run id) runs ≡ some r
    → find (is_run id) (update_where (is_run id) f runs) ≡ some (f r)
find-own id f [] r keep h = absurd (cc)
find-own id f (x ∷ runs) r keep h = elim (Bool-cases (is_run id x)) [
  | inl e ↦
      let here : is_run id (f x) ≡ true = ap (λ n. n == id) (keep x) ∙ e in
      let same : x ≡ r = ground arith in simp (e, here) (ap (λ (y : RouteRun). some (f y)) same)
  | inr e ↦ simp (e) (find-own id f runs r keep (ground arith))
]

any-found :
    (id : ℕ) (runs : List RouteRun) (r : RouteRun)
    → find (is_run id) runs ≡ some r
    → any (is_run id) runs ≡ true
any-found id [] r h = absurd (cc)
any-found id (x ∷ runs) r h = ground (arith, any-found id runs r)

start_route_run-runs :
    (now id : ℕ) (db : Db) (r : RouteRun)
    → find (is_run id) db.runs ≡ some r
    → find (is_run id) (start_route_run now id db).0.runs ≡ some (run_started now r)
unfolding start_route_run
start_route_run-runs now id db r h =
    rw (any-found id db.runs r h, start_route_run)
      (find-own id (run_started now) db.runs r (λ x. refl) h)

finish_route_run-runs :
    (now id : ℕ) (db : Db) (r : RouteRun)
    → find (is_run id) db.runs ≡ some r
    → find (is_run id) (finish_route_run now id db).0.runs ≡ some (run_finished_now now r)
unfolding finish_route_run
finish_route_run-runs now id db r h =
    rw (any-found id db.runs r h, finish_route_run)
      (find-own id (run_finished_now now) db.runs r (λ x. refl) h)

-- A run that was finished at `t`, whatever it was before, and is then started, is in progress with the
-- time of its finish still in the tables; when it is finished once more, the later time replaces that.
pub finish-start-finish :
    (t now later id : ℕ) (db : Db) (r : RouteRun)
    → find (λ x. x.id == id) db.runs ≡ some r
    → (again : RouteRun) × (find
          (λ x. x.id == id)
          (start_route_run now id (finish_route_run t id db).0).0.runs
        ≡ some again)
      × (again.status ≡ run_in_progress)
      × (again.finished_at ≡ some t)
      × (last : RouteRun) × (find
            (λ x. x.id == id)
            (finish_route_run later id
              (start_route_run now id (finish_route_run t id db).0).0).0.runs
          ≡ some last)
      × (last.status ≡ run_completed)
      × (last.finished_at ≡ some later)
finish-start-finish t now later id db r h =
    let first = finish_route_run-runs t id db r h in
    let second =
      start_route_run-runs now id (finish_route_run t id db).0 (run_finished_now t r) first in
    (
      run_started now (run_finished_now t r),
      second,
      refl,
      refl,
      run_finished_now later (run_started now (run_finished_now t r)),
      finish_route_run-runs later id (start_route_run now id (finish_route_run t id db).0).0
          (run_started now (run_finished_now t r)) second,
      refl,
      refl,
    )
