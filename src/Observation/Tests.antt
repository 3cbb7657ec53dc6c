-- ===== src/Observation/Tests.antt =====
-- The observations of one submission.
use fieldpro_pilot.Base.{none, some, [], ◌∷◌, text}
use fieldpro_pilot.Base.Int.{pos}
use fieldpro_pilot.Observation.{Payload, num, RegistryRule}

-- a volume of at most 2 is in order
abbrev volume_rule : RegistryRule
volume_rule = record {
  id = 4;
  observation_key = text "trash_volume";
  obs_kind = some (text "measurement");
  ok_rule =
      some (record { field = some (text "level"); eq = none; lte = some (pos 2); gte = none });
  severity_map = some (record { field = some (text "level") });
}

abbrev level_1 : Payload
level_1 = (text "level", num (pos 1)) ∷ []
