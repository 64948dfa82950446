-- ===== src/Tests/Rules.antt =====
-- The rule engine on the rules that the service starts with.
use centralized_hvac_system.Prelude.{◌≡◌, refl, true, false, [], ◌∷◌, ◌++◌, arith, map}
use centralized_hvac_system.Prelude.Result.{ok}
use centralized_hvac_system.Float.{Micro, micro_float}
use centralized_hvac_system.Dict.{Dict}
use centralized_hvac_system.Control.Value.{Twin, text, to_float}
use centralized_hvac_system.Control.Rules.{
  RuleEngine, Firings, evaluate, new_engine, load_rules, add_rule, delete_rule,
}
use centralized_hvac_system.Control.Rules.Order.{IsSorted, rules-IsSorted}
use centralized_hvac_system.Control.Rules.Firing.{IsUrgentFirst, evaluate-IsUrgentFirst}
use centralized_hvac_system.Control.Rules.Total.{AllReadable, evaluate_total}
use centralized_hvac_system.Control.Rules.Cooldown.{names, WithinPeriod, no_refire}
use centralized_hvac_system.Control.Actions.{
  default_rules, overheat_shutdown, high_temp_max_fan, high_load_alert, energy_saving_auto_fan,
}
use centralized_hvac_system.Tests.Data.{whole, stored, at_start}

abbrev engine : RuleEngine Micro
engine = at_start.engine

abbrev hot_twin : Twin Micro
hot_twin = stored "u1" "ON" "36.0" "95.0"

abbrev fired : Firings Micro
fired =
    map (λ a. (overheat_shutdown, a)) (overheat_shutdown {F = Micro}).actions
    ++ map (λ a. (high_temp_max_fan, a)) (high_temp_max_fan {F = Micro}).actions

-- Two rules fire for the hot unit, the more urgent one first.
evaluate_hot : (evaluate (whole 1000) hot_twin engine).0 ≡ ok fired
unfolding evaluate default_rules overheat_shutdown high_temp_max_fan high_load_alert
    energy_saving_auto_fan centralized_hvac_system.Dict.lookup centralized_hvac_system.Dict.insert
evaluate_hot = refl

engine-IsSorted : IsSorted engine.rules
unfolding default_rules overheat_shutdown high_temp_max_fan high_load_alert energy_saving_auto_fan
engine-IsSorted = (
  (omega arith, (omega arith, (omega arith, tt))),
  ((omega arith, (omega arith, tt)), ((omega arith, tt), (tt, tt))),
)

rules-IsSorted_example :
    IsSorted (new_engine (high_load_alert ∷ engine.rules)).rules
    × IsSorted (load_rules engine (high_load_alert ∷ engine.rules)).rules
    × IsSorted (add_rule engine overheat_shutdown).rules
    × IsSorted (delete_rule engine "high-load-alert").1.rules
rules-IsSorted_example =
    rules-IsSorted engine (high_load_alert ∷ engine.rules) overheat_shutdown "high-load-alert"
      engine-IsSorted

evaluate-IsUrgentFirst_example : IsUrgentFirst fired
evaluate-IsUrgentFirst_example =
    evaluate-IsUrgentFirst (whole 1000) hot_twin engine fired engine-IsSorted evaluate_hot

hot_twin-AllReadable : AllReadable hot_twin engine.rules
unfolding to_float default_rules overheat_shutdown high_temp_max_fan high_load_alert
    energy_saving_auto_fan centralized_hvac_system.Dict.lookup
hot_twin-AllReadable = ((at_36, tt), ((at_36, tt), ((at_95, tt), ((at_95, (at_36, tt)), tt))))
  where
    at_36 : (x : Micro) × (to_float (text "36.0") ≡ ok x)
    at_36 = (whole 36, refl)

    at_95 : (x : Micro) × (to_float (text "95.0") ≡ ok x)
    at_95 = (whole 95, refl)

evaluate_total_example :
    (out : Firings Micro) × ((evaluate (whole 1000) hot_twin engine).0 ≡ ok out)
evaluate_total_example = evaluate_total (whole 1000) hot_twin engine hot_twin-AllReadable

engine-WithinPeriod : WithinPeriod "overheat-shutdown" (whole 1050) (whole 1000) engine.rules
unfolding default_rules overheat_shutdown high_temp_max_fan high_load_alert energy_saving_auto_fan
engine-WithinPeriod = (λ h. refl, (λ h. refl, (λ h. refl, (λ h. refl, tt))))

-- Within the minute neither rule fires again.
evaluate_again :
    (evaluate (whole 1050) hot_twin (evaluate (whole 1000) hot_twin engine).1).0 ≡ ok []
unfolding evaluate default_rules overheat_shutdown centralized_hvac_system.Dict.lookup
    high_temp_max_fan centralized_hvac_system.Dict.insert high_load_alert energy_saving_auto_fan
evaluate_again = refl

fired_overheat : names "overheat-shutdown" fired ≡ true
unfolding overheat_shutdown
fired_overheat = refl

no_refire_example : names {F = Micro} "overheat-shutdown" [] ≡ false
no_refire_example =
    no_refire "overheat-shutdown" engine (whole 1000) (whole 1050) hot_twin hot_twin fired [] refl
      evaluate_hot fired_overheat engine-WithinPeriod evaluate_again
