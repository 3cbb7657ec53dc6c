-- ===== src/Service/Run/Finish.antt =====
-- When `checkAndCompleteRouteRun` finishes a run.
use fieldpro_pilot.Base.{
  ℕ, ◌≡◌, ◌↔◌, ◌⊎◌, inl, inr, refl, Bool, true, All, ◌&&◌, ◌||◌, some, List, [], ◌∷◌, arith, find,
  if◌then◌else◌, Bool-cases, some_unique, ltb, ◌==◌,
}
use fieldpro_pilot.Service.{
  Db, RouteRun, RunStatus, RouteRunStop, StopStatus, pending, planned, assigned, in_progress, done,
  skipped, is_open, is_closed, coalesce, run_planned, run_in_progress, run_finished, run_completed,
}
use fieldpro_pilot.Service.Run.{
  is_over, pending_count, completed_count, finish, check_and_complete_route_run,
}

abbrev is_run : ℕ → RouteRun → Bool
is_run run r = r.id == run

-- a run that the `UPDATE` finds
abbrev finished : ℕ → RouteRun → RouteRun
finished now r = if is_over r.status then r else record r {
  status = run_finished;
  finished_at = coalesce r.finished_at (some now);
  updated_at = some now;
}

find-finish :
    (now run : ℕ) (runs : List RouteRun) (r : RouteRun)
    → find (is_run run) runs ≡ some r
    → find (is_run run) (finish now run runs) ≡ some (finished now r)
unfolding finish
find-finish now run [] r h = absurd (ground arith)
find-finish now run (x ∷ xs) r h = elim (Bool-cases (is_run run x)) [
  | inl e ↦
      let same : r ≡ x = some_unique h (rw e) in
      elim (Bool-cases (is_over x.status)) [ inl f ↦ rw (same, f, e) | inr f ↦ rw (same, f, e, e) ]
  | inr e ↦ elim (Bool-cases (is_over x.status)) [
    | inl f ↦ rw (f, e) (find-finish now run xs r (ground arith))
    | inr f ↦ rw (f, e, e) (find-finish now run xs r (ground arith))
  ]
]

finished_over : (now : ℕ) (r : RouteRun) → is_over (finished now r).status ≡ true
finished_over now r = elim (Bool-cases (is_over r.status)) [ inl e ↦ rw (e, e) | inr e ↦ rw e ]

checked :
    (now run : ℕ) (db : Db) (r : RouteRun)
    → find (λ x. x.id == run) db.runs ≡ some r
    → (r' : RouteRun) × (find (λ x. x.id == run) (check_and_complete_route_run now run db).runs
        ≡ some r')
      × (is_over r'.status ≡ (
          is_over r.status
          || (pending_count run db.stops == 0 && ltb 0 (completed_count run db.stops))))
unfolding check_and_complete_route_run
checked now run db r h =
    elim (Bool-cases (pending_count run db.stops == 0 && ltb 0 (completed_count run db.stops))) [
      | inl e ↦ (
        finished now r,
        rw e (find-finish now run db.runs r h),
        rw (finished_over now r) (ground arith),
      )
      | inr e ↦ (r, rw e h, ground arith)
    ]

-- A run is over: finished by its last stop, or completed by a request.
abbrev pub IsOver : RunStatus → Type 0
IsOver status = (status ≡ run_finished) ⊎ (status ≡ run_completed)

-- a stop that was served or skipped, and one that waits or is being served
abbrev pub IsServed : RouteRunStop → Type 0
IsServed s = (s.status ≡ done) ⊎ (s.status ≡ skipped)

abbrev pub IsAwaited : RouteRunStop → Type 0
IsAwaited s = (s.status ≡ pending) ⊎ (s.status ≡ in_progress)

-- Some stop of the run is served or skipped.
abbrev pub AnyServed : ℕ → List RouteRunStop → Type 0
AnyServed run [] = ⊥
AnyServed run (s ∷ stops) = ((s.route_run_id ≡ run) × IsServed s) ⊎ AnyServed run stops

-- No stop of the run waits or is being served.
abbrev pub NoneAwaited : ℕ → List RouteRunStop → Type 0
NoneAwaited run stops = All (λ s. s.route_run_id ≡ run → IsAwaited s → ⊥) stops

is_over-IsOver : (s : RunStatus) → (is_over s ≡ true) ↔ IsOver s
is_over-IsOver run_planned = (λ e. absurd (cc), λ o. elim o [ inl e ↦ cc | inr e ↦ cc ])
is_over-IsOver run_in_progress = (λ e. absurd (cc), λ o. elim o [ inl e ↦ cc | inr e ↦ cc ])
is_over-IsOver run_finished = (λ e. inl refl, λ o. refl)
is_over-IsOver run_completed = (λ e. inr refl, λ o. refl)

closed-served : (s : StopStatus) → (is_closed s ≡ true) ↔ ((s ≡ done) ⊎ (s ≡ skipped))
closed-served pending = (λ e. absurd (cc), λ o. elim o [ inl e ↦ cc | inr e ↦ cc ])
closed-served planned = (λ e. absurd (cc), λ o. elim o [ inl e ↦ cc | inr e ↦ cc ])
closed-served assigned = (λ e. absurd (cc), λ o. elim o [ inl e ↦ cc | inr e ↦ cc ])
closed-served in_progress = (λ e. absurd (cc), λ o. elim o [ inl e ↦ cc | inr e ↦ cc ])
closed-served done = (λ e. inl refl, λ o. refl)
closed-served skipped = (λ e. inr refl, λ o. refl)

open-awaited : (s : StopStatus) → (is_open s ≡ true) ↔ ((s ≡ pending) ⊎ (s ≡ in_progress))
open-awaited pending = (λ e. inl refl, λ o. refl)
open-awaited in_progress = (λ e. inr refl, λ o. refl)
open-awaited planned = (λ e. absurd (cc), λ o. elim o [ inl e ↦ cc | inr e ↦ cc ])
open-awaited assigned = (λ e. absurd (cc), λ o. elim o [ inl e ↦ cc | inr e ↦ cc ])
open-awaited done = (λ e. absurd (cc), λ o. elim o [ inl e ↦ cc | inr e ↦ cc ])
open-awaited skipped = (λ e. absurd (cc), λ o. elim o [ inl e ↦ cc | inr e ↦ cc ])

completed_count-AnyServed :
    (run : ℕ) (stops : List RouteRunStop)
    → (ltb 0 (completed_count run stops) ≡ true) ↔ AnyServed run stops
unfolding completed_count
completed_count-AnyServed run [] = (λ e. absurd (ground arith), λ o. absurd o)
completed_count-AnyServed run (s ∷ stops) =
    let (found, counted) = completed_count-AnyServed run stops in
    let (served, closed) = closed-served s.status in
    elim (Bool-cases (s.route_run_id == run && is_closed s.status)) [
      | inl e ↦ (λ h. inl (ground arith, served (ground arith)), λ o. rw e (ground arith))
      | inr e ↦ (
        λ h. inr (found (ground arith)),
        λ o. elim o [
          | inl (own, is) ↦ let c = closed is in absurd (ground arith)
          | inr rest ↦ let c = counted rest in ground arith
        ],
      )
    ]

pending_count-NoneAwaited :
    (run : ℕ) (stops : List RouteRunStop)
    → ((pending_count run stops == 0) ≡ true) ↔ NoneAwaited run stops
unfolding pending_count
pending_count-NoneAwaited run [] = (λ e. tt, λ o. refl)
pending_count-NoneAwaited run (s ∷ stops) =
    let (none_there, counted) = pending_count-NoneAwaited run stops in
    let (awaited, opened) = open-awaited s.status in
    elim (Bool-cases (s.route_run_id == run && is_open s.status)) [
      | inl e ↦
          (λ h. absurd (ground arith), λ o. absurd (o.0 (ground arith) (awaited (ground arith))))
      | inr e ↦ (
        λ h. (λ own is. let c = opened is in absurd (ground arith), none_there (ground arith)),
        λ o. let c = counted o.1 in ground arith,
      )
    ]

-- `checkAndCompleteRouteRun` keeps the run in the tables; afterwards it is finished or completed
-- exactly if it was before, or if no stop of it is pending or in progress and at least one is done or
-- skipped.
pub check_and_complete_route_run_lem :
    (now run : ℕ) (db : Db) (r : RouteRun)
    → find (λ x. x.id == run) db.runs ≡ some r
    → (r' : RouteRun) × (find (λ x. x.id == run) (check_and_complete_route_run now run db).runs
        ≡ some r')
      × (IsOver r'.status ↔ (IsOver r.status ⊎ (NoneAwaited run db.stops × AnyServed run db.stops)))
check_and_complete_route_run_lem now run db r h =
    let (r', found, over) = checked now run db r h in
    let (no_more, counted) = pending_count-NoneAwaited run db.stops in
    let (some_served, counted_served) = completed_count-AnyServed run db.stops in
    let (over_then, then_over) = is_over-IsOver r.status in
    let (over_now, now_over) = is_over-IsOver r'.status in
    (
      r',
      found,
      (
        λ o.
            let e = now_over o in
            elim (Bool-cases (is_over r.status)) [
              | inl f ↦ inl (over_then f)
              | inr f ↦ inr (no_more (ground arith), some_served (ground arith))
            ],
        λ o. elim o [
          | inl was ↦ let f = then_over was in over_now (ground arith)
          | inr (n, a) ↦ let c = counted n in let d = counted_served a in over_now (ground arith)
        ],
      ),
    )
