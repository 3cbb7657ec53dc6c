-- ===== src/Service/Visit/Closed.antt =====
-- A visit that was closed is not closed again.
use fieldpro_pilot.Base.{
  ℕ, ◌≡◌, refl, ap, inl, inr, Bool, false, Option, none, some, List, [], ◌∷◌, update_where,
  Bool-cases, Text, if◌then◌else◌,
}
use fieldpro_pilot.Service.{Db, Services, VisitRow, coalesce}
use fieldpro_pilot.Service.Visit.{has_client_id, is_ended, close_visit_for_route_run_stop}

update_where-again {ℓ} :
    {A : Type ℓ} (p : A → Bool) (f g : A → A) (xs : List A)
    → ((x : A) → p (f x) ≡ false)
    → update_where p g (update_where p f xs) ≡ update_where p f xs
update_where-again p f g [] h = refl
update_where-again p f g (x ∷ xs) h = elim (Bool-cases (p x)) [
  | inl e ↦ rw (e, h x, update_where-again p f g xs h)
  | inr e ↦ rw (e, e, update_where-again p f g xs h)
]

-- there is an end after a close
coalesce-some : (a b : Option ℕ) (now : ℕ) → (t : ℕ) × (coalesce a (coalesce b (some now)) ≡ some t)
coalesce-some (some t) b now = (t, refl)
coalesce-some none (some t) now = (t, refl)
coalesce-some none none now = (now, refl)

-- the visit with its end, outcome and reason, where it had none
abbrev closed_visit : Text → Option Text → Option ℕ → VisitRow → VisitRow
closed_visit outcome reason ended v = record v {
  ended_at = coalesce v.ended_at ended;
  outcome = coalesce v.outcome (some outcome);
  reason_code = coalesce v.reason_code reason;
}

-- After a visit of the stop was closed, closing it again, at another time, with another outcome and
-- another reason, leaves the tables as they are.
pub close_visit_for_route_run_stop-again :
    (svc : Services) (now id : ℕ) (outcome outcome' : Text) (reason reason' : Option Text)
    (ended ended' : Option ℕ) (db : Db)
    → close_visit_for_route_run_stop
        (record svc { now = now })
        id
        outcome'
        reason'
        ended'
        (close_visit_for_route_run_stop svc id outcome reason ended db)
      ≡ close_visit_for_route_run_stop svc id outcome reason ended db
unfolding close_visit_for_route_run_stop
close_visit_for_route_run_stop-again svc now id outcome outcome' reason reason' ended ended' db =
    ap (λ visits. record db { visits = visits })
      (update_where-again
        (λ v. if is_ended svc v then false else has_client_id (svc.uuid_of_stop id) v)
        (closed_visit outcome reason (coalesce ended (some svc.now)))
        (closed_visit outcome' reason' (coalesce ended' (some now))) db.visits
        (λ v. let (t, e) = coalesce-some v.ended_at ended svc.now in rw e))
