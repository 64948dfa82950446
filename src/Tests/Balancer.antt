-- ===== src/Tests/Balancer.antt =====
-- The load balancer: on loads that are numbers, and on the texts that Redis returns.
use centralized_hvac_system.Prelude.{
  inl, inr, ◌≡◌, ◌≢◌, refl, false, ◌&&◌, String, none, some, List, [], ◌∷◌, select,
}
use centralized_hvac_system.Prelude.Result.{ok, raised, type_error}
use centralized_hvac_system.Float.{Micro, micro_float}
use centralized_hvac_system.Dict.{lookup}
use centralized_hvac_system.Models.{ControlCommand, on}
use centralized_hvac_system.Control.Value.{Twin, is_text}
use centralized_hvac_system.Control.Balancer.{Survey, survey, evaluate_zone, zone_cooling}
use centralized_hvac_system.Control.Balancer.Choice.{
  has_status, is_hot, Justified, evaluate_zone_lem,
}
use centralized_hvac_system.Control.Balancer.Quiet.{ZoneTurn, evaluations, no_oscillation}
use centralized_hvac_system.Control.Balancer.Texts.{FromRedis, evaluate_zone_raises}
use centralized_hvac_system.Tests.Data.{whole, stored, measured}

-- Three units at 95 and two that wait.
abbrev zone : List (Twin Micro)
zone =
    measured "u1" "ON" 95
    ∷ measured "u2" "STANDBY" 7
    ∷ measured "u3" "ON" 95
    ∷ measured "u4" "STANDBY" 5
    ∷ measured "u5" "ON" 95
    ∷ []

-- The waiting unit with the lower load is activated.
abbrev wake : ControlCommand Micro
wake = record {
  unit_id = "u4";
  status = some on;
  target_temp = none;
  fan_speed = none;
  issued_by = "load-balancer";
  correlation_id = some "c1";
}

zone_wakes : (evaluate_zone (whole 1000) "c1" "z1" zone []).0 ≡ ok (some wake)
unfolding evaluate_zone zone_cooling lookup survey
    centralized_hvac_system.Control.Balancer.with_status
    centralized_hvac_system.Control.Balancer.over centralized_hvac_system.Control.Balancer.decide
    centralized_hvac_system.Control.Balancer.least_loaded
    centralized_hvac_system.Control.Balancer.least_from
    centralized_hvac_system.Control.Balancer.command_unit
zone_wakes = refl

evaluate_zone_lem_example :
    (zone_cooling {F = Micro} (whole 1000) [] "z1" ≡ false)
    × (lookup "z1" (evaluate_zone (whole 1000) "c1" "z1" zone []).1 ≡ some (whole 1000))
    × Justified
        (select (has_status "ON") zone)
        (select (has_status "STANDBY") zone)
        (select (λ t. has_status "ON" t && is_hot t) zone)
        wake
evaluate_zone_lem_example = evaluate_zone_lem (whole 1000) "c1" "z1" zone [] wake zone_wakes

-- Another zone and the same one in between.
abbrev in_between : List (ZoneTurn Micro)
in_between =
    record { now = whole 1010; corr = "c3"; zone_id = "z2"; twins = zone }
    ∷ record { now = whole 1060; corr = "c4"; zone_id = "z1"; twins = zone }
    ∷ []

no_oscillation_example :
    let c' = evaluations in_between (evaluate_zone (whole 1000) "c1" "z1" zone []).1 in
    evaluate_zone (whole 1119) "c2" "z1" zone c' ≡ (ok none, c')
no_oscillation_example =
    no_oscillation (whole 1000) (whole 1119) "c1" "c2" "z1" zone zone [] wake in_between zone_wakes
      (inl refl, (inr (refl, refl), tt)) refl

-- The same kind of zone as Redis returns it.
abbrev stored_zone : List (Twin Micro)
stored_zone = stored "u1" "ON" "36.0" "95.0" ∷ stored "u2" "STANDBY" "24.0" "95.0" ∷ []

stored-FromRedis : (u status temp load : String) → FromRedis (stored u status temp load)
unfolding lookup
stored-FromRedis u status temp load = record {
  status = status;
  load = load;
  status_there = refl;
  load_there = refl;
}

runs : select (has_status "ON") stored_zone ≢ []
unfolding lookup is_text
runs h = cc

evaluate_zone_raises_example :
    evaluate_zone {F = Micro} (whole 1000) "c1" "z1" stored_zone [] ≡ (raised type_error, [])
unfolding zone_cooling lookup
evaluate_zone_raises_example =
    evaluate_zone_raises (whole 1000) "c1" "z1" stored_zone []
      (
        stored-FromRedis "u1" "ON" "36.0" "95.0",
        (stored-FromRedis "u2" "STANDBY" "24.0" "95.0", tt),
      )
      runs refl
