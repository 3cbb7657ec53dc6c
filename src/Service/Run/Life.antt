-- ===== src/Service/Run/Life.antt =====
-- The life of a run: the requests that change it as steps of the tables, and the check at the end of a
-- stop's completion or skip.
use fieldpro_pilot.Base.{
  ℕ, ◌≡◌, ap, ◌∙◌, subst, Bool, true, false, ◌&&◌, Option, none, some, List, [], ◌∷◌, arith, find,
  update_where, Bool-cases, Option-cases, ◌==◌, ltb, if◌then◌else◌, Text, inl, inr,
}
use fieldpro_pilot.Service.{Db, RouteRun}
use fieldpro_pilot.Service.Run.{
  is_over, pending_count, completed_count, finish, check_and_complete_route_run,
}
use fieldpro_pilot.Service.Run.Routes.{
  is_run, has_run, run_started, run_finished_now, start_route_run, finish_route_run,
  assign_route_run, assign_in_org, start_run_handler, finish_run_handler, assign_handler,
}
use fieldpro_pilot.Service.Run.Stays.{
  Kept, Kept-refl, Kept-trans, run_started-Kept, run_finished_now-Kept, touched-Kept, checked-Kept,
}

pub data RunRequest : Db → Db → Type 0 where
  starts :
      (now : ℕ) (org : Option ℕ) (id : ℕ) (db : Db)
      → RunRequest db (start_run_handler now org id db).0
  finishes :
      (now : ℕ) (org : Option ℕ) (id : ℕ) (db : Db)
      → RunRequest db (finish_run_handler now org id db).0
  assigns :
      (now : ℕ) (org : Option ℕ) (id : ℕ) (worker : Option Text) (db : Db)
      → RunRequest db (assign_handler now org id worker db).0
  checks : (now id : ℕ) (db : Db) → RunRequest db (check_and_complete_route_run now id db)

pub data RunRequests : Db → Db → Type 0 where
  none_yet : (db : Db) → RunRequests db db
  further : (a b c : Db) → RunRequests a b → RunRequest b c → RunRequests a c

-- the run is in the tables, as far as it stays
abbrev pub KeptIn : ℕ → RouteRun → Db → Type 0
KeptIn id r db = (r' : RouteRun) × (find (is_run id) db.runs ≡ some r') × Kept r r'

-- An update that keeps what stays of every run keeps it of the run that is found.
find-update_where :
    (id : ℕ) (q : RouteRun → Bool) (f : RouteRun → RouteRun) (runs : List RouteRun) (r : RouteRun)
    → ((x : RouteRun) → Kept x (f x))
    → find (is_run id) runs ≡ some r
    → (r' : RouteRun) × (find (is_run id) (update_where q f runs) ≡ some r') × Kept r r'
find-update_where id q f [] r keep h = absurd (cc)
find-update_where id q f (x ∷ runs) r keep h = elim (Bool-cases (is_run id x)) [
  | inl e ↦
      let same : x ≡ r = ground arith in
      elim (Bool-cases (q x)) [
        | inl g ↦
            let here : is_run id (f x) ≡ true = ap (λ n. n == id) (keep x).same_id ∙ e in
            (f x, simp (g, here), subst (λ y. Kept y (f x)) same (keep x))
        | inr g ↦ (x, simp (g, e), subst (λ y. Kept y x) same (Kept-refl x))
      ]
  | inr e ↦
      let (r', found, k) = find-update_where id q f runs r keep (ground arith) in
      elim (Bool-cases (q x)) [
        | inl g ↦
            let other : is_run id (f x) ≡ false = ap (λ n. n == id) (keep x).same_id ∙ e in
            (r', simp (g, other) found, k)
        | inr g ↦ (r', simp (g, e) found, k)
      ]
]

module _ (id : ℕ) (r : RouteRun) where
  start_route_run-KeptIn :
      (now run : ℕ) (db : Db)
      → find (is_run id) db.runs ≡ some r
      → KeptIn id r (start_route_run now run db).0
  unfolding start_route_run
  start_route_run-KeptIn now run db h = elim (Bool-cases (has_run run db)) [
    | inl e ↦
        rw (e, start_route_run)
          (find-update_where id (is_run run) (run_started now) db.runs r (run_started-Kept now) h)
    | inr e ↦ rw (e, start_route_run) (r, h, Kept-refl r)
  ]

  finish_route_run-KeptIn :
      (now run : ℕ) (db : Db)
      → find (is_run id) db.runs ≡ some r
      → KeptIn id r (finish_route_run now run db).0
  unfolding finish_route_run
  finish_route_run-KeptIn now run db h = elim (Bool-cases (has_run run db)) [
    | inl e ↦
        rw (e, finish_route_run)
          (find-update_where id (is_run run) (run_finished_now now) db.runs r
            (run_finished_now-Kept now) h)
    | inr e ↦ rw (e, finish_route_run) (r, h, Kept-refl r)
  ]

  assign_in_org-KeptIn :
      (now run : ℕ) (worker : Option Text) (db : Db)
      → find (is_run id) db.runs ≡ some r
      → KeptIn id r (assign_in_org now run worker db).0
  unfolding assign_in_org assign_route_run
  assign_in_org-KeptIn now run worker db h = elim (Option-cases (find (is_run run) db.runs)) [
    | inl e ↦ rw (e, assign_in_org, assign_route_run) (r, h, Kept-refl r)
    | inr (found, e) ↦
        rw (e, assign_in_org, assign_route_run)
          (find-update_where id (is_run run) (λ x. record x { updated_at = some now }) db.runs r
            (touched-Kept now) h)
  ]

  check-KeptIn :
      (now run : ℕ) (db : Db)
      → find (is_run id) db.runs ≡ some r
      → KeptIn id r (check_and_complete_route_run now run db)
  unfolding check_and_complete_route_run finish
  check-KeptIn now run db h =
      elim (Bool-cases (pending_count run db.stops == 0 && ltb 0 (completed_count run db.stops))) [
        | inl e ↦
            rw (e, check_and_complete_route_run)
              (find-update_where id (λ x. if is_over x.status then false else x.id == run) _ db.runs
                r (checked-Kept now) h)
        | inr e ↦ rw (e, check_and_complete_route_run) (r, h, Kept-refl r)
      ]

  RunRequest-KeptIn : {a b : Db} → RunRequest a b → find (is_run id) a.runs ≡ some r → KeptIn id r b
  unfolding start_run_handler finish_run_handler assign_handler
  RunRequest-KeptIn (starts now none run db) h = (r, h, Kept-refl r)
  RunRequest-KeptIn (starts now (some org) run db) h = start_route_run-KeptIn now run db h
  RunRequest-KeptIn (finishes now none run db) h = (r, h, Kept-refl r)
  RunRequest-KeptIn (finishes now (some org) run db) h = finish_route_run-KeptIn now run db h
  RunRequest-KeptIn (assigns now org run (some []) db) h = (r, h, Kept-refl r)
  RunRequest-KeptIn (assigns now none run none db) h = (r, h, Kept-refl r)
  RunRequest-KeptIn (assigns now none run (some (c ∷ w)) db) h = (r, h, Kept-refl r)
  RunRequest-KeptIn (assigns now (some o) run none db) h = assign_in_org-KeptIn now run none db h
  RunRequest-KeptIn (assigns now (some o) run (some (c ∷ w)) db) h =
      assign_in_org-KeptIn now run (some (c ∷ w)) db h
  RunRequest-KeptIn (checks now run db) h = check-KeptIn now run db h

-- Through any sequence of starts, finishes, assignments and checks, of any runs and in any order, a run
-- stays in the tables with its organisation, pool, base, date and lengths; the time of its first start
-- is kept; once it has a time of finishing it has one; and it is never planned again.
pub RunRequests-KeptIn :
    (id : ℕ) (r : RouteRun) (a b : Db)
    → RunRequests a b
    → find (is_run id) a.runs ≡ some r
    → KeptIn id r b
RunRequests-KeptIn id r a b (none_yet db) h = (r, h, Kept-refl r)
RunRequests-KeptIn id r a b (further x y z before last) h =
    let (m, found, k) = RunRequests-KeptIn id r x y before h in
    let (r', found', k') = RunRequest-KeptIn id m last found in (r', found', Kept-trans k k')
