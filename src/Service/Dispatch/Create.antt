-- ===== src/Service/Dispatch/Create.antt =====
-- `createRouteRun` of backend/src/domains/routeRun/routeRunService.ts as a whole, and the handler of
-- `POST /route-runs` of backend/src/modules/routes/routeRunRoutes.ts. The answers of the routing service
-- are parameters: `trip` for a trip, `distance` and `duration` for a leg. Of the tables it reads,
-- `bases`, `route_pools` and the places of the stops are given, and what
-- getCandidateStopsForPoolWithRisk (of Planning/Candidates) returns for a pool. Tests of a caller's
-- token and role are in Authz; the organisation is none where it is not resolved.
pub mod Atomic
use fieldpro_pilot.Base.{
  ℕ, Bool, true, false, not, ◌&&◌, Option, none, some, List, [], ◌∷◌, map, any, filter, find, take,
  length, ltb, leb, if◌then◌else◌, Text, text, eq_text, is_empty, ◌||◌, ◌⊎◌, inl, inr,
}
use mathlib.Core.Option
use fieldpro_pilot.Base.Int.{ℤ}
use fieldpro_pilot.Corridor.{Stop}
use fieldpro_pilot.Planning.{Waypoint, base_waypoint, order_stops, has_stop_id}
use fieldpro_pilot.Service.{Db, Services, in_transaction}
use fieldpro_pilot.Service.Dispatch.{RunParams, Leg, legs_of, create_body}

pub record Base : Type 0 where
  pub id : Text
  pub lon : ℤ
  pub lat : ℤ
  pub active : Bool

pub record Pool : Type 0 where
  pub id : Text
  pub base_id : Option Text
  pub active : Bool

-- what the code reads and asks for besides the tables of `Db`
pub record Roads : Type 0 where
  pub trip : List Stop → Option (List Waypoint)
  pub distance : Stop → Stop → ℕ
  pub duration : Stop → Stop → ℕ
  pub bases : List Base
  pub pools : List Pool
  pub places : List Stop
  pub candidates : Text → List Stop

-- what is thrown: an error with status 400, or another
pub data Refused : Type 0 where
  bad_request : Text → Refused
  failed : Text → Refused

abbrev pub max_osrm_stops : ℕ
max_osrm_stops = 25

-- the stops to plan: those given or, if there is none, the candidates of the pool
unfoldable pub stops_to_plan : Roads → RunParams → Option (List Stop)
unfolding is_empty
stops_to_plan roads params = elim params.stops [
  | s ∷ stops ↦ some (s ∷ stops)
  | [] ↦
      if is_empty params.route_pool_id || ltb (length (roads.candidates params.route_pool_id)) 2
      then none
      else some (roads.candidates params.route_pool_id)
]

unfoldable pub active_base : Roads → Text → Option Base
active_base roads id = find (λ b. b.active && eq_text b.id id) roads.bases

-- the planned legs, from the base on
unfoldable pub planned_legs : Roads → Base → List Stop → Option (List Leg)
unfolding legs_of
planned_legs roads base stops =
    let start = base_waypoint base.lon base.lat in
    Option.map (legs_of roads.distance roads.duration start)
      (order_stops roads.trip roads.duration start stops)

unfoldable pub plan_run : Roads → RunParams → Option (Option (List Leg))
unfolding stops_to_plan active_base planned_legs
plan_run roads params = elim (stops_to_plan roads params) [
  | none ↦ some none
  | some stops ↦ elim (active_base roads params.base_id) [
    | none ↦ none
    | some base ↦ some (planned_legs roads base stops)
  ]
]

unfoldable pub settled_run : Option ℕ → Refused ⊎ ℕ
settled_run none = inl (failed (text "rolled back"))
settled_run (some run) = inr run

module _ (svc : Services) (roads : Roads) where
  -- from the plan on
  unfoldable pub create_planned :
      ℕ → RunParams → Option (Option (List Leg)) → Db → Db × (Refused ⊎ ℕ)
  unfolding settled_run
  create_planned org params none db =
      (db, inl (bad_request (text "Base ID required and must be active for route planning")))
  create_planned org params (some none) db = (db, inl (failed (text "no route")))
  create_planned org params (some (some legs)) db =
      let result = in_transaction (create_body svc org params legs) db in
      (result.0, settled_run result.1)

  unfoldable pub create_route_run : ℕ → RunParams → Db → Db × (Refused ⊎ ℕ)
  create_route_run org params db = create_planned org params (plan_run roads params) db

-- the flag of the body: absent, no boolean, or a boolean
pub data Flag : Type 0 where
  absent not_boolean : Flag
  flag : Bool → Flag

pub record CreateBody : Type 0 where
  pub stop_ids : Option (List Text)
  pub base_id : Option Text
  pub route_pool_id : Option Text
  pub pool_id : Option Text
  pub run_date : ℕ
  pub ul_id : Option Text
  pub shift_type : Option Text
  pub is_adhoc : Flag

-- the answers: 200, 400, 401 and 500
pub data CreateResponse : Type 0 where
  created : ℕ → CreateResponse
  refused : Text → CreateResponse
  unauthenticated : CreateResponse
  broken : CreateResponse

-- `a || b`
abbrev pub or_text : Option Text → Option Text → Option Text
or_text none b = b
or_text (some []) b = b
or_text (some (c ∷ a)) b = some (c ∷ a)

abbrev pub names_two : Option (List Text) → Bool
names_two none = false
names_two (some ids) = leb 2 (length ids)

unfoldable pub flag_refusal : Flag → Option (List Text) → Option Text
flag_refusal absent ids = none
flag_refusal not_boolean ids = some (text "is_adhoc must be a boolean")
flag_refusal (flag true) ids =
    if names_two ids
    then none
    else some (text "is_adhoc requires an explicit stop_ids array (min 2)")
flag_refusal (flag false) ids = none

abbrev pub is_set : Flag → Bool
is_set (flag b) = b
is_set _ = false

-- the base given, or the one of the active pool; none also for an empty id
unfoldable pub resolve_base : Roads → Option Text → Text → Option Text
resolve_base roads given pool = elim (or_text given none) [
  | some id ↦ some id
  | none ↦ elim (find (λ p. p.active && eq_text p.id pool) roads.pools) [
    | none ↦ none
    | some p ↦ or_text p.base_id none
  ]
]

abbrev pub found_places : Roads → List Text → List Stop
found_places roads ids = filter (λ s. any (λ id. has_stop_id id s) ids) roads.places

-- the stops that the body names, as far as they are found; none for fewer than two of them
unfoldable pub named_stops : Roads → Option (List Text) → Option (List Stop)
named_stops roads none = some []
named_stops roads (some ids) =
    if leb 2 (length ids)
    then if ltb (length (found_places roads ids)) 2
      then none
      else some (take max_osrm_stops (found_places roads ids))
    else some []

unfoldable pub run_params : Text → Text → Text → List Stop → CreateBody → RunParams
run_params creator pool base stops body = record {
  stops = stops;
  assigned_user_oid = body.ul_id;
  created_by_oid = some creator;
  route_pool_id = pool;
  base_id = base;
  run_date = body.run_date;
  shift_type = body.shift_type;
  is_adhoc = is_set body.is_adhoc;
}

unfoldable pub create_response : Refused ⊎ ℕ → CreateResponse
create_response (inl (bad_request message)) = refused message
create_response (inl (failed message)) = broken
create_response (inr run) = created run

module _ (svc : Services) (roads : Roads) where
  -- what runs in the context of the organisation
  unfoldable pub create_in_org : ℕ → Text → Text → CreateBody → Db → Db × CreateResponse
  create_in_org org creator pool body db = elim (resolve_base roads body.base_id pool) [
    | none ↦ (db, refused (text "No base_id provided and route pool has no base assigned"))
    | some base ↦ elim (named_stops roads body.stop_ids) [
      | none ↦ (db, refused (text "Not enough stops found with coordinates"))
      | some stops ↦
          let result =
            create_route_run svc roads org (run_params creator pool base stops body) db in
          (result.0, create_response result.1)
    ]
  ]

  -- the checks of the body
  unfoldable pub create_checked : Option ℕ → Text → CreateBody → Db → Db × CreateResponse
  create_checked org creator body db =
      elim (or_text body.route_pool_id (or_text body.pool_id none)) [
        | none ↦ (db, refused (text "Missing required field: pool_id"))
        | some pool ↦ elim (flag_refusal body.is_adhoc body.stop_ids) [
          | some message ↦ (db, refused message)
          | none ↦ elim org [ none ↦ (db, broken) | some o ↦ create_in_org o creator pool body db ]
        ]
      ]

  unfoldable pub create_handler : Option ℕ → Option Text → CreateBody → Db → Db × CreateResponse
  create_handler org none body db = (db, unauthenticated)
  create_handler org (some []) body db = (db, unauthenticated)
  create_handler org (some (c ∷ creator)) body db = create_checked org (c ∷ creator) body db
