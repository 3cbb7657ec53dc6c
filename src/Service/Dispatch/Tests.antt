-- ===== src/Service/Dispatch/Tests.antt =====
-- A run of two stops: its creation, and the assignments that visits are linked to.
use fieldpro_pilot.Base.{
  ℕ, ◌≡◌, refl, true, false, none, some, List, [], ◌∷◌, arith, length, ltb, map, All, Text, text,
  eq_text,
}
use fieldpro_pilot.Base.Int.{pos}
use fieldpro_pilot.Corridor.{Stop}
use mathlib.Core.List.{Perm}
use fieldpro_pilot.Planning.{Waypoint, is_base, base_waypoint, order_stops}
use fieldpro_pilot.Service.{Db, Services, ok, settled}
use fieldpro_pilot.Service.Visit.{insert_audit}
use fieldpro_pilot.Service.Dispatch.{
  RunParams, Leg, concat_map, locations_of, asset_or_null, new_stop, insert_stop, insert_link,
  insert_links, conflicts, audit_assignments, create_body,
}
use fieldpro_pilot.Service.Dispatch.Create.{Roads, Base, max_osrm_stops, CreateBody, flag}
use fieldpro_pilot.Service.Dispatch.Preview.{Preview, previewed, preview_stops}
use fieldpro_pilot.Service.Dispatch.Preview.Agrees.{first_stops, preview_stops-order_stops}

abbrev place : Text → ℕ → Stop
place id x = record {
  lon = pos x;
  lat = pos 0;
  stop_id = some id;
  on_street_name = none;
  bearing_code = none;
}

abbrev tables : Db
tables = record {
  stops = [];
  runs = [];
  visits = [];
  observations = [];
  visit_audits = [];
  observation_audits = [];
  efforts = [];
  assets = record { id = 2; org_id = some 1 } ∷ record { id = 3; org_id = some 1 } ∷ [];
  locations = record { stop_id = text "S1"; location_id = 5 } ∷ [];
  assignments = [];
  public_stops =
      record { stop_id = text "S1"; is_hotspot = true; compactor = false; asset_id = some 2 }
      ∷ record { stop_id = text "S2"; is_hotspot = false; compactor = false; asset_id = some 3 }
      ∷ [];
  registry = [];
  run_assignments = [];
  assignment_audits = [];
  serial = 100;
}

abbrev services : Services
services = record {
  uuid_of_stop = λ id. id ∷ [];
  encrypt = λ actor. some (actor, text "k1");
  limit_one = λ rows. elim rows [ [] ↦ none | a ∷ others ↦ some a ];
  now = 60;
}

abbrev params : RunParams
params = record {
  stops = place (text "S1") 4 ∷ place (text "S2") 9 ∷ [];
  assigned_user_oid = some (text "worker");
  created_by_oid = some (text "lead");
  route_pool_id = text "P1";
  base_id = text "NORTH";
  run_date = 20;
  shift_type = none;
  is_adhoc = false;
}

abbrev first_leg : Leg
first_leg = record { stop = place (text "S1") 4; dist = 40; dur = 30 }

abbrev second_leg : Leg
second_leg = record { stop = place (text "S2") 9; dist = 50; dur = 35 }

abbrev legs : List Leg
legs = first_leg ∷ second_leg ∷ []

abbrev after : Db
unfolding create_body insert_stop new_stop asset_or_null eq_text insert_links insert_link conflicts
    concat_map locations_of audit_assignments insert_audit
after = (settled tables (create_body services 1 params legs tables)).0

created_run : create_body services 1 params legs tables ≡ ok 100 after
unfolding create_body insert_stop new_stop asset_or_null eq_text insert_links insert_link conflicts
    concat_map locations_of audit_assignments insert_audit
created_run = refl

abbrev waypoints : List Waypoint
waypoints =
    record { waypoint_index = 0; lon = pos 0; lat = pos 0 }
    ∷ record { waypoint_index = 1; lon = pos 4; lat = pos 0 }
    ∷ record { waypoint_index = 2; lon = pos 9; lat = pos 0 }
    ∷ []

abbrev roads : Roads
roads = record {
  trip = λ asked. some waypoints;
  distance = λ a b. 40;
  duration = λ a b. 30;
  bases = record { id = text "NORTH"; lon = pos 0; lat = pos 0; active = true } ∷ [];
  pools = [];
  places = params.stops;
  candidates = λ pool. [];
}

abbrev request : CreateBody
request = record {
  stop_ids = some (text "S1" ∷ text "S2" ∷ []);
  base_id = some (text "NORTH");
  route_pool_id = none;
  pool_id = some (text "P1");
  run_date = 20;
  ul_id = none;
  shift_type = none;
  is_adhoc = flag true;
}

abbrev north : Base
north = record { id = text "NORTH"; lon = pos 0; lat = pos 0; active = true }

base_real : is_base (base_waypoint (pos 0) (pos 0)) ≡ true
unfolding eq_text
base_real = refl

places_real : All (λ s. is_base s ≡ false) params.stops
unfolding eq_text
places_real = (refl, (refl, tt))

preview_example :
    (p : Preview) × (preview_stops roads (some north) params.stops ≡ previewed p)
    × (p.base_anchored ≡ true)
    × (p.truncated ≡ ltb max_osrm_stops (length params.stops))
    × (out : List Stop) × (order_stops roads.trip
          (λ a b. 30)
          (base_waypoint (pos 0) (pos 0))
          (first_stops params.stops)
        ≡ some out)
    × Perm (map (λ s. s.stop_id) p.ordered_stops) (map (λ s. s.stop_id) out)
preview_example =
    preview_stops-order_stops roads (λ a b. 30) north params.stops waypoints (omega arith) base_real
      places_real refl refl
