-- ===== src/Service/Life/Advance.antt =====
-- A stop never goes back: what any sequence of requests leaves of it.
use fieldpro_pilot.Base.{
  ℕ, ◌≤◌, ◌≡◌, refl, ap, sym, ◌∙◌, inl, inr, ◌⊎◌, Bool, true, false, not, ◌==◌, Option, none, some,
  List, [], ◌∷◌, arith, find, update_where, Bool-cases, some_unique,
}
use mathlib.Core.Option
use fieldpro_pilot.Service.{
  Db, Services, RouteRunStop, StopStatus, pending, planned, assigned, in_progress, done, skipped,
  is_stop, is_done, is_open,
}
use fieldpro_pilot.Service.Start.{allows, started}
use fieldpro_pilot.Service.Start.Handlers.{startable, start_handler, start_pending_handler}
use fieldpro_pilot.Service.Complete.Frame.{find-update_where}
use fieldpro_pilot.Service.Complete.Again.{closed_row}
use fieldpro_pilot.Service.Skip.{skipped_row}
use fieldpro_pilot.Service.Life.{
  Request, starts, starts_pending, completes, skips, Requests, none_yet, then, rank,
}
use fieldpro_pilot.Service.Life.Writes.{Writes, start-Writes, complete-Writes}
use fieldpro_pilot.Service.Life.Skips.{skip-Writes}

-- The stop is still there, has come at least as far, and is unchanged if it was done.
abbrev pub AdvancedTo : RouteRunStop → Option RouteRunStop → Type 0
AdvancedTo row found =
    (later : RouteRunStop) × (found ≡ some later)
    × (rank row.status ≤ rank later.status)
    × ((later ≡ row) ⊎ (is_done row.status ≡ false))

find-update_where_ne :
    (id other : ℕ) (f : RouteRunStop → RouteRunStop) (xs : List RouteRunStop)
    → (id == other) ≡ false
    → ((s : RouteRunStop) → (f s).id ≡ s.id)
    → find (is_stop other) (update_where (is_stop id) f xs) ≡ find (is_stop other) xs
find-update_where_ne id other f [] apart keeps = refl
find-update_where_ne id other f (x ∷ xs) apart keeps = elim (Bool-cases (is_stop id x)) [
  | inl e ↦
      let not_x : is_stop other x ≡ false = ground arith in
      let not_written : is_stop other (f x) ≡ false = rw (keeps x) not_x in
      rw (e, not_written, not_x, find-update_where_ne id other f xs apart keeps)
  | inr e ↦ elim (Bool-cases (is_stop other x)) [
    | inl g ↦ rw (e, g)
    | inr g ↦ rw (e, g, find-update_where_ne id other f xs apart keeps)
  ]
]

-- An update that is allowed to move the status forward.
module _ (f : RouteRunStop → RouteRunStop) (allowed : StopStatus → Bool)
    (keeps : (s : RouteRunStop) → (f s).id ≡ s.id)
    (forward : (s : RouteRunStop) → allowed s.status ≡ true → rank s.status ≤ rank (f s).status)
    (unfinished : (s : StopStatus) → allowed s ≡ true → is_done s ≡ false) where
  Writes-AdvancedTo :
      (written id : ℕ) (before after : List RouteRunStop) (row : RouteRunStop)
      → Writes written f allowed before after
      → find (is_stop id) before ≡ some row
      → AdvancedTo row (find (is_stop id) after)
  Writes-AdvancedTo written id before after row (inl same) e =
      (row, rw same e, omega arith, inl refl)
  Writes-AdvancedTo written id before after row (inr (at, found, ok, write)) e =
      elim (Bool-cases (written == id)) [
        | inl g ↦
            let same_id : written ≡ id = ground arith in
            let same_row : some at ≡ some row =
              sym found ∙ ap (λ i. find (is_stop i) before) same_id ∙ e in
            let here : allowed row.status ≡ true =
              ap (λ r. allowed r.status) (sym (some_unique {a = at} {b = row} refl same_row))
              ∙ ok in
            (
              f row,
              ap (find (is_stop id)) (write ∙ ap (λ i. update_where (is_stop i) f before) same_id)
                  ∙ find-update_where id f before keeps
                  ∙ ap (Option.map f) e,
              forward row here,
              inr (unfinished row.status here),
            )
        | inr g ↦ (
          row,
          ap (find (is_stop id)) write ∙ find-update_where_ne written id f before g keeps ∙ e,
          omega arith,
          inl refl,
        )
      ]

allows-startable : (s : StopStatus) → allows startable s ≡ true → rank s ≤ 1
allows-startable pending h = omega arith
allows-startable planned h = omega arith
allows-startable assigned h = omega arith
allows-startable in_progress h = omega arith
allows-startable done h = absurd cc
allows-startable skipped h = absurd cc

not_done : (s : StopStatus) → rank s ≤ 2 → is_done s ≡ false
not_done pending h = refl
not_done planned h = refl
not_done assigned h = refl
not_done in_progress h = refl
not_done skipped h = refl
not_done done h = absurd (omega arith)

rank_max : (s : StopStatus) → rank s ≤ 3
rank_max pending = omega arith
rank_max planned = omega arith
rank_max assigned = omega arith
rank_max in_progress = omega arith
rank_max skipped = omega arith
rank_max done = omega arith

allows_pending : (s : StopStatus) → allows (pending ∷ []) s ≡ true → allows startable s ≡ true
allows_pending pending h = refl
allows_pending planned h = refl
allows_pending assigned h = refl
allows_pending in_progress h = absurd cc
allows_pending done h = absurd cc
allows_pending skipped h = absurd cc

open_rank : (s : StopStatus) → is_open s ≡ true → rank s ≤ 1
open_rank pending h = omega arith
open_rank planned h = absurd cc
open_rank assigned h = absurd cc
open_rank in_progress h = omega arith
open_rank done h = absurd cc
open_rank skipped h = absurd cc

start-AdvancedTo :
    (svc : Services) (statuses : List StopStatus) (written id : ℕ)
    (before after : List RouteRunStop) (row : RouteRunStop)
    → ((s : StopStatus) → allows statuses s ≡ true → allows startable s ≡ true)
    → Writes written (started svc.now) (allows statuses) before after
    → find (is_stop id) before ≡ some row
    → AdvancedTo row (find (is_stop id) after)
unfolding started
start-AdvancedTo svc statuses written id before after row startables w e =
    Writes-AdvancedTo (started svc.now) (allows statuses) (λ s. refl)
      (λ s h. allows-startable s.status (startables s.status h))
      (λ s h. not_done s (let early = allows-startable s (startables s h) in omega arith)) written
      id before after row w e

request-AdvancedTo :
    (before after : Db) (id : ℕ) (row : RouteRunStop)
    → Request before after
    → find (is_stop id) before.stops ≡ some row
    → AdvancedTo row (find (is_stop id) after.stops)
unfolding start_handler start_pending_handler skipped_row
request-AdvancedTo before after id row (starts svc written none db) e =
    (row, e, omega arith, inl refl)
request-AdvancedTo before after id row (starts svc written (some actor) db) e =
    start-AdvancedTo svc startable written id _ _ row (λ s h. h)
      (start-Writes svc written actor startable db) e
request-AdvancedTo before after id row (starts_pending svc written actor db) e =
    start-AdvancedTo svc (pending ∷ []) written id _ _ row allows_pending
      (start-Writes svc written actor (pending ∷ []) db) e
request-AdvancedTo before after id row (completes svc written photos c db) e =
    Writes-AdvancedTo (closed_row svc.now c.trash_volume) (λ s. not (is_done s)) (λ s. refl)
      (λ s h. rank_max s.status) (λ s h. ground arith) written id _ _ row
      (complete-Writes svc written photos c db) e
request-AdvancedTo before after id row (skips svc written photos actor body db) e =
    Writes-AdvancedTo (skipped_row svc.now) is_open (λ s. refl)
      (λ s h. let early = open_rank s.status h in omega arith)
      (λ s h. not_done s (let early = open_rank s h in omega arith)) written id _ _ row
      (skip-Writes svc written photos actor body db) e

settle_same :
    (a b c : RouteRunStop)
    → ((b ≡ a) ⊎ (is_done a.status ≡ false))
    → ((c ≡ b) ⊎ (is_done b.status ≡ false))
    → ((c ≡ a) ⊎ (is_done a.status ≡ false))
settle_same a b c (inr open_a) q = inr open_a
settle_same a b c (inl p) (inl q) = inl (q ∙ p)
settle_same a b c (inl p) (inr open_b) = inr (ap (λ r. is_done r.status) (sym p) ∙ open_b)

AdvancedTo-trans :
    (a : RouteRunStop) (middle last : Option RouteRunStop)
    → AdvancedTo a middle
    → ((b : RouteRunStop) → middle ≡ some b → AdvancedTo b last)
    → AdvancedTo a last
AdvancedTo-trans a middle last (b, found, r1, same1) next =
    let (c, found2, r2, same2) = next b found in
    (c, found2, omega arith, settle_same a b c same1 same2)

-- Whatever requests to start, to complete and to skip arrive, for any stops and in any order: a stop of
-- the tables is still there afterwards, its status is not further back in the order of waiting, in
-- progress, skipped, done, and if it was done, its row is unchanged.
pub Requests-AdvancedTo :
    (before after : Db) (id : ℕ) (row : RouteRunStop)
    → Requests before after
    → find (is_stop id) before.stops ≡ some row
    → AdvancedTo row (find (is_stop id) after.stops)
Requests-AdvancedTo before after id row (none_yet db) e = (row, e, omega arith, inl refl)
Requests-AdvancedTo before after id row (then a b c first last) e =
    AdvancedTo-trans row (find (is_stop id) b.stops) (find (is_stop id) c.stops)
      (Requests-AdvancedTo a b id row first e)
      (λ middle found. request-AdvancedTo b c id middle last found)
