-- ===== src/Service/Run/Assigned.antt =====
-- Who works on a run after `assignRouteRun`.
use fieldpro_pilot.Base.{
  ℕ, ◌≤◌, ◌≡◌, refl, ap, ◌∙◌, sym, subst, true, Option, some, List, [], ◌∷◌, ◌++◌, arith, find, any,
  count, count-append, count_of_none, update_where, Bool-cases, Option-cases, false, none, ◌==◌,
  Text, inl, inr,
}
use fieldpro_pilot.Service.{Db, RouteRun, RunAssignment}
use fieldpro_pilot.Service.Run.Routes.{
  is_run, is_run_assignment, reassigned, newly_assigned, upsert_assignment, assign_route_run,
  worker_in, previous_worker,
}

is_run_found :
    (id : ℕ) (runs : List RouteRun) (r : RouteRun) → find (is_run id) runs ≡ some r → r.id ≡ id
is_run_found id [] r h = absurd (cc)
is_run_found id (x ∷ runs) r h = elim (Bool-cases (is_run id x)) [
  | inl e ↦
      let same : x ≡ r = ground arith in
      let own : x.id ≡ id = ground arith in ap (λ (y : RouteRun). y.id) (sym same) ∙ own
  | inr e ↦ is_run_found id runs r (ground arith)
]

module _ (now id : ℕ) (worker : Option Text) where
  worker_in-update :
      (rows : List RunAssignment)
      → any (is_run_assignment id) rows ≡ true
      → worker_in id (update_where (is_run_assignment id) (reassigned now worker) rows) ≡ worker
  unfolding worker_in
  worker_in-update [] h = absurd (cc)
  worker_in-update (a ∷ rows) h = ground (arith, worker_in-update rows)

  worker_in-update_other :
      (other : ℕ) (rows : List RunAssignment)
      → (other == id) ≡ false
      → worker_in other (update_where (is_run_assignment id) (reassigned now worker) rows)
        ≡ worker_in other rows
  unfolding worker_in
  worker_in-update_other other [] h = refl
  worker_in-update_other other (a ∷ rows) h = ground (arith, worker_in-update_other other rows)

  count-update :
      (rows : List RunAssignment)
      → count
          (is_run_assignment id)
          (update_where (is_run_assignment id) (reassigned now worker) rows)
        ≡ count (is_run_assignment id) rows
  count-update [] = refl
  count-update (a ∷ rows) = ground (arith, count-update rows)

worker_in-append :
    (id : ℕ) (rows : List RunAssignment) (a : RunAssignment)
    → any (is_run_assignment id) rows ≡ false
    → worker_in id (rows ++ a ∷ []) ≡ worker_in id (a ∷ [])
unfolding worker_in
worker_in-append id [] a h = refl
worker_in-append id (b ∷ rows) a h = ground (arith, worker_in-append id rows a)

worker_in-append_other :
    (id : ℕ) (rows : List RunAssignment) (a : RunAssignment)
    → is_run_assignment id a ≡ false
    → worker_in id (rows ++ a ∷ []) ≡ worker_in id rows
unfolding worker_in
worker_in-append_other id [] a h = ground arith
worker_in-append_other id (b ∷ rows) a h = ground (arith, worker_in-append_other id rows a)

count-any :
    (id : ℕ) (rows : List RunAssignment)
    → any (is_run_assignment id) rows ≡ true
    → 1 ≤ count (is_run_assignment id) rows
count-any id [] h = absurd (cc)
count-any id (a ∷ rows) h = ground (arith, count-any id rows)

module _ (now : ℕ) (worker : Option Text) (r : RouteRun) (rows : List RunAssignment) where
  worker_in-upsert : worker_in r.id (upsert_assignment now worker r rows) ≡ worker
  unfolding upsert_assignment
  worker_in-upsert = elim (Bool-cases (any (is_run_assignment r.id) rows)) [
    | inl e ↦ rw (e, upsert_assignment) (worker_in-update now r.id worker rows e)
    | inr e ↦
        rw (e, upsert_assignment)
          (worker_in-append r.id rows _ e ∙ (unfold worker_in in ground arith))
  ]

  worker_in-upsert_other :
      (other : ℕ)
      → (other == r.id) ≡ false
      → worker_in other (upsert_assignment now worker r rows) ≡ worker_in other rows
  unfolding upsert_assignment
  worker_in-upsert_other other h = elim (Bool-cases (any (is_run_assignment r.id) rows)) [
    | inl e ↦ rw (e, upsert_assignment) (worker_in-update_other now r.id worker other rows h)
    | inr e ↦ rw (e, upsert_assignment) (worker_in-append_other other rows _ (ground arith))
  ]

  count-upsert :
      count (is_run_assignment r.id) rows ≤ 1
      → count (is_run_assignment r.id) (upsert_assignment now worker r rows) ≡ 1
  unfolding upsert_assignment
  count-upsert h = elim (Bool-cases (any (is_run_assignment r.id) rows)) [
    | inl e ↦
        rw (e, upsert_assignment)
          (omega (arith, count-update now r.id worker rows, count-any r.id rows e))
    | inr e ↦
        rw (e, upsert_assignment)
          (let test = is_run_assignment r.id in
            ground (
              arith,
              count-append test rows (newly_assigned now worker r ∷ []),
              count_of_none test rows e,
            ))
  ]

assigned_run :
    (now id : ℕ) (worker : Option Text) (db : Db) (r : RouteRun)
    → find (λ x. x.id == id) db.runs ≡ some r
    → count (is_run_assignment id) db.run_assignments ≤ 1
    → (other : ℕ) → (other == id) ≡ false
    → ((assign_route_run now id worker db).1 ≡ true)
      × (previous_worker id (assign_route_run now id worker db).0 ≡ worker)
      × (count (is_run_assignment id) (assign_route_run now id worker db).0.run_assignments ≡ 1)
      × (previous_worker other (assign_route_run now id worker db).0 ≡ previous_worker other db)
unfolding assign_route_run previous_worker
assigned_run now id worker db r found few other away =
    let own : id ≡ r.id = sym (is_run_found id db.runs r found) in
    let rows = db.run_assignments in
    (
      rw (found, assign_route_run) refl,
      rw (found, assign_route_run)
          (ap (λ n. worker_in n (upsert_assignment now worker r rows)) own
            ∙ worker_in-upsert now worker r rows),
      rw (found, assign_route_run)
          (ap (λ n. count (is_run_assignment n) (upsert_assignment now worker r rows)) own
            ∙ count-upsert now worker r rows
                (subst (λ n. count (is_run_assignment n) rows ≤ 1) own few)),
      rw (found, assign_route_run)
          (worker_in-upsert_other now worker r rows other
            (subst (λ n. (other == n) ≡ false) own away)),
    )

-- what assigning the run that is found, or none, comes to: for the run, and for another
abbrev pub AssignedTo : ℕ → ℕ → ℕ → Option Text → Db → Option RouteRun → Type 0
AssignedTo now id other worker db none = assign_route_run now id worker db ≡ (db, false)
AssignedTo now id other worker db (some r) =
    ((assign_route_run now id worker db).1 ≡ true)
    × (previous_worker id (assign_route_run now id worker db).0 ≡ worker)
    × (count (is_run_assignment id) (assign_route_run now id worker db).0.run_assignments ≡ 1)
    × (previous_worker other (assign_route_run now id worker db).0 ≡ previous_worker other db)

-- Where a run is not found, assigning it changes nothing and throws. After a run that is found was
-- assigned to a worker, or to none, it is that worker whom a later assignment finds before it; the run
-- has exactly one row of assignment, if it had one at most; and the workers of other runs are who they
-- were.
pub assign_route_run_lem :
    (now id : ℕ) (worker : Option Text) (db : Db)
    → count (is_run_assignment id) db.run_assignments ≤ 1
    → (other : ℕ) → (other == id) ≡ false
    → AssignedTo now id other worker db (find (λ x. x.id == id) db.runs)
unfolding assign_route_run previous_worker
assign_route_run_lem now id worker db few other away =
    elim (Option-cases (find (λ x. x.id == id) db.runs)) [
      | inl missing ↦ rw missing (rw (missing, assign_route_run) refl)
      | inr (r, found) ↦ rw found (assigned_run now id worker db r found few other away)
    ]
