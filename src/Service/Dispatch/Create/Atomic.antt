-- ===== src/Service/Dispatch/Create/Atomic.antt =====
-- A request to create a run either creates it whole or changes nothing.
use fieldpro_pilot.Base.{ℕ, ◌≡◌, false, Option, none, some, List, any, ◌==◌, Text}
use fieldpro_pilot.Corridor.{Stop}
use fieldpro_pilot.Service.{Db, Services, RouteRunStop}
use fieldpro_pilot.Service.Dispatch.{RunParams, Leg}
use fieldpro_pilot.Service.Dispatch.Keys.{IsKeyed}
use fieldpro_pilot.Service.Dispatch.Written.{Created}
use fieldpro_pilot.Service.Dispatch.Create.{
  Roads, plan_run, CreateBody, CreateResponse, created, refused, unauthenticated, broken, or_text,
  flag_refusal, resolve_base, named_stops, run_params,
}

-- A run was planned and written as the request asked: by its caller, in the organisation, for the pool
-- that it names, from the base that it names or that the pool has, through the stops that it names.
pub record CreatedFor (svc : Services) (roads : Roads) (org : Option ℕ) (creator : Option Text)
    (body : CreateBody) (run : ℕ) (db after : Db) : Type 0 where
  pub own_org : ℕ
  pub caller : Text
  pub pool : Text
  pub base : Text
  pub stops : List Stop
  pub legs : List Leg
  pub org_resolved : org ≡ some own_org
  pub caller_known : creator ≡ some caller
  pub pool_named : or_text body.route_pool_id (or_text body.pool_id none) ≡ some pool
  pub flag_allowed : flag_refusal body.is_adhoc body.stop_ids ≡ none
  pub base_resolved : resolve_base roads body.base_id pool ≡ some base
  pub stops_named : named_stops roads body.stop_ids ≡ some stops
  pub planned : plan_run roads (run_params caller pool base stops body) ≡ some (some legs)
  pub written : Created svc own_org (run_params caller pool base stops body) run legs db after

-- the tables after an answer
abbrev pub Settled :
    Services → Roads → Option ℕ → Option Text → CreateBody → Db → Db × CreateResponse → Type 0
Settled svc roads org creator body db (after, created run) =
    CreatedFor svc roads org creator body run db after
Settled svc roads org creator body db (after, refused message) = after ≡ db
Settled svc roads org creator body db (after, unauthenticated) = after ≡ db
Settled svc roads org creator body db (after, broken) = after ≡ db

module _ (svc : Services) (roads : Roads) (db : Db)
    (fresh : any (λ (s : RouteRunStop). s.route_run_id == db.serial) db.stops ≡ false)
    (keyed : IsKeyed db) where
  module _ (org : ℕ) (creator pool : Text) (body : CreateBody)
      (named : or_text body.route_pool_id (or_text body.pool_id none) ≡ some pool)
      (flagged : flag_refusal body.is_adhoc body.stop_ids ≡ none) where
    module _ (base : Text) (stops : List Stop)
        (based : resolve_base roads body.base_id pool ≡ some base)
        (found : named_stops roads body.stop_ids ≡ some stops) where
      abbrev params : RunParams
      params = run_params creator pool base stops body
