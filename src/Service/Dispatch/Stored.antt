-- ===== src/Service/Dispatch/Stored.antt =====
-- The loop that inserts the stops of a run: what it has stored where it ends.
use fieldpro_pilot.Base.{
  ℕ, suc, ◌≡◌, refl, ap, ◌∙◌, sym, true, false, none, some, List, [], ◌∷◌, ◌++◌, arith, any, filter,
  length, append_assoc, append-nil, Bool-cases, Option-cases, ◌==◌, Text, text, inl, inr,
}
use fieldpro_pilot.Service.{Db, Result, ok, error, RouteRunStop, pending}
use fieldpro_pilot.Service.Dispatch.{Leg, asset_or_null, new_stop, insert_stop, insert_stops}

-- a stop stands in the run for a leg
pub record Places (run i : ℕ) (leg : Leg) (s : RouteRunStop) : Type 0 where
  pub of_run : s.route_run_id ≡ run
  pub same_stop : some s.stop_id ≡ leg.stop.stop_id
  pub in_place : s.sequence ≡ i
  pub still_pending : s.status ≡ pending
  pub leg_distance : s.planned_distance_m ≡ leg.dist
  pub leg_duration : s.planned_duration_s ≡ leg.dur

-- the stops are those of the legs, numbered from `i`
abbrev pub Placed : ℕ → ℕ → List Leg → List RouteRunStop → Type 0
Placed run i [] [] = Unit {0}
Placed run i [] (s ∷ stops) = ⊥
Placed run i (leg ∷ legs) [] = ⊥
Placed run i (leg ∷ legs) (s ∷ stops) = Places run i leg s × Placed run (suc i) legs stops

pub length-Placed :
    (run i : ℕ) (legs : List Leg) (stops : List RouteRunStop)
    → Placed run i legs stops
    → length stops ≡ length legs
length-Placed run i [] [] p = refl
length-Placed run i [] (s ∷ stops) p = elim p [ ]
length-Placed run i (leg ∷ legs) [] p = elim p [ ]
length-Placed run i (leg ∷ legs) (s ∷ stops) (q, p) =
    ap suc (length-Placed run (suc i) legs stops p)

pub filter-Placed :
    (run i : ℕ) (legs : List Leg) (stops : List RouteRunStop)
    → Placed run i legs stops
    → filter (λ s. s.route_run_id == run) stops ≡ stops
filter-Placed run i [] [] p = refl
filter-Placed run i [] (s ∷ stops) p = elim p [ ]
filter-Placed run i (leg ∷ legs) [] p = elim p [ ]
filter-Placed run i (leg ∷ legs) (s ∷ stops) (q, p) =
    let here : (s.route_run_id == run) ≡ true = ground arith in
    rw here (ap (◌∷◌ s) (filter-Placed run (suc i) legs stops p))

-- none of the stops before is of a run with a new id
pub filter-fresh :
    (run : ℕ) (old new : List RouteRunStop)
    → any (λ s. s.route_run_id == run) old ≡ false
    → filter (λ s. s.route_run_id == run) (old ++ new) ≡ filter (λ s. s.route_run_id == run) new
filter-fresh run [] new h = refl
filter-fresh run (s ∷ old) new h = elim (Bool-cases (s.route_run_id == run)) [
  | inl e ↦ absurd (ground arith)
  | inr e ↦ rw e (filter-fresh run old new (ground arith))
]

abbrev pub Stored : ℕ → ℕ → List Leg → Db → Result (Unit {0}) → Type 0
Stored run i legs db (error e) = Unit {0}
Stored run i legs db (ok done after) =
    (new : List RouteRunStop) × (serial : ℕ) × (after
      ≡ record db { stops = db.stops ++ new; serial = serial })
    × Placed run i legs new

Stored-cons :
    (run i : ℕ) (leg : Leg) (legs : List Leg) (s : RouteRunStop) (db : Db) (n : ℕ)
    (r : Result (Unit {0}))
    → Places run i leg s
    → Stored run (suc i) legs (record db { stops = db.stops ++ s ∷ []; serial = n }) r
    → Stored run i (leg ∷ legs) db r
Stored-cons run i leg legs s db n (error e) p h = tt
Stored-cons run i leg legs s db n (ok done after) p (new, k, t, q) = (
  s ∷ new,
  k,
  t
      ∙ ap (λ (rows : List RouteRunStop). record db { stops = rows; serial = k })
          (append_assoc db.stops (s ∷ []) new),
  (p, q),
)

module _ (now run org i : ℕ) (leg : Leg) (db : Db) where
  insert_stop-null :
      leg.stop.stop_id ≡ none
      → insert_stop now run org i leg db ≡ error (text "null value in column stop_id")
  insert_stop-null h = unfold insert_stop in rw (h, insert_stop) refl

  insert_stop-null_asset :
      (stop : Text)
      → leg.stop.stop_id ≡ some stop
      → asset_or_null stop db.public_stops ≡ none
      → insert_stop now run org i leg db ≡ error (text "null value in column asset_id")
  insert_stop-null_asset stop h a = unfold insert_stop in rw (h, a, insert_stop) refl

  insert_stop-ok :
      (stop : Text) (asset : ℕ)
      → leg.stop.stop_id ≡ some stop
      → asset_or_null stop db.public_stops ≡ some asset
      → insert_stop now run org i leg db
        ≡ ok tt (record db {
          stops = db.stops ++ new_stop now run org i stop asset leg db.serial ∷ [];
          serial = suc db.serial;
        })
  insert_stop-ok stop asset h a = unfold insert_stop new_stop in rw (h, a, insert_stop) refl

  new_stop-Places :
      (stop : Text) (asset id : ℕ)
      → leg.stop.stop_id ≡ some stop
      → Places run i leg (new_stop now run org i stop asset leg id)
  new_stop-Places stop asset id h =
      unfold new_stop in
      record {
        of_run = refl;
        same_stop = sym h;
        in_place = refl;
        still_pending = refl;
        leg_distance = refl;
        leg_duration = refl;
      }

pub insert_stops-Stored :
    (now run org i : ℕ) (legs : List Leg) (db : Db)
    → Stored run i legs db (insert_stops now run org i legs db)
unfolding insert_stops
insert_stops-Stored now run org i [] db = (
  [],
  db.serial,
  ap (λ (rows : List RouteRunStop). record db { stops = rows }) (sym (append-nil db.stops)),
  tt,
)
insert_stops-Stored now run org i (leg ∷ legs) db = elim (Option-cases leg.stop.stop_id) [
  | inl e ↦ rw (insert_stop-null now run org i leg db e) tt
  | inr (stop, e) ↦ elim (Option-cases (asset_or_null stop db.public_stops)) [
    | inl f ↦ rw (insert_stop-null_asset now run org i leg db stop e f) tt
    | inr (asset, f) ↦
        let s = new_stop now run org i stop asset leg db.serial in
        let after = record db { stops = db.stops ++ s ∷ []; serial = suc db.serial } in
        rw (insert_stop-ok now run org i leg db stop asset e f) (
          Stored-cons run i leg legs s db (suc db.serial)
            (insert_stops now run org (suc i) legs after)
            (new_stop-Places now run org i leg db stop asset db.serial e)
            (insert_stops-Stored now run org (suc i) legs after))
  ]
]
