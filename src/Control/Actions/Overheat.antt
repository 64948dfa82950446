-- ===== src/Control/Actions/Overheat.antt =====
-- The default rules on a hot twin (main (2).py, DEFAULT_RULES and `RuleEngine.evaluate`).
use centralized_hvac_system.Prelude.{◌≡◌, refl, ap, ◌∙◌, true, false, some, List, [], ◌∷◌, arith}
use centralized_hvac_system.Prelude.Int.{pos}
use centralized_hvac_system.Prelude.Result.{ok}
use centralized_hvac_system.Float.{Float}
use centralized_hvac_system.Dict.{Dict, lookup}
use centralized_hvac_system.Control.Value.{Value, null, flag, text, num, Twin, to_float}
use centralized_hvac_system.Control.Rules.{
  Rule, RuleCondition, RuleEngine, RuleAction, firings, plain, mapping, Firings, sort_rules,
  cooling, cooldown_key, check, visit, visit_all, evaluate,
}
use centralized_hvac_system.Control.Rules.Total.{
  Readable, AllReadable, check_value_reads, visit_all_total, visit_all-join,
}
use centralized_hvac_system.Control.Actions.{
  default_rules, overheat_shutdown, high_temp_max_fan, high_load_alert, energy_saving_auto_fan,
}

module _ {F : Type 0} where
  -- The actions of the overheat rule.
  abbrev pub shut_down_action : RuleAction F
  shut_down_action = record { kind = "set_status"; value = plain (text "OFF") }

  abbrev report : RuleAction F
  report = record {
    kind = "alert";
    value = mapping (("type", text "OVERHEAT") ∷ ("severity", text "CRITICAL") ∷ []);
  }

module _ {F : Type 0} ⦃fl : Float F⦄ where
  -- The rules that the service starts with are already in the order of their priority.
  default_rules_sorted : sort_rules (default_rules {F = F}) ≡ default_rules
  unfolding sort_rules default_rules overheat_shutdown high_temp_max_fan high_load_alert
      energy_saving_auto_fan
  default_rules_sorted = refl

  -- The temperature that the twin holds reads as `temp`, and the load as a number.
  pub record Readings (twin : Twin F) (temp : F) : Type 0 where
    pub temp_value : Value F
    pub load_value : Value F
    pub load : F
    pub temp_there : lookup "current_temp" twin ≡ some temp_value
    pub load_there : lookup "load_percentage" twin ≡ some load_value
    pub temp_reads : to_float temp_value ≡ ok temp
    pub load_reads : to_float load_value ≡ ok load

  readable : (v : Value F) (x : F) → to_float v ≡ ok x → Readable (some v)
  readable null x h = tt
  readable (flag b) x h = (x, h)
  readable (num y) x h = (x, h)
  readable (text t) x h = (x, h)

  default_rules-readable :
      (twin : Twin F) (temp : F) → Readings twin temp → AllReadable twin default_rules
  unfolding default_rules overheat_shutdown high_temp_max_fan high_load_alert energy_saving_auto_fan
  default_rules-readable twin temp r =
      let at_temp : Readable (lookup "current_temp" twin) =
        rw r.temp_there (readable r.temp_value temp r.temp_reads) in
      let at_load : Readable (lookup "load_percentage" twin) =
        rw r.load_there (readable r.load_value r.load r.load_reads) in
      ((at_temp, tt), ((at_temp, tt), ((at_load, tt), ((at_load, (at_temp, tt)), tt))))

  -- The overheat rule fires on a temperature of 35 or more, unless it is cooling.
  visit_overheat :
      (now : F) (twin : Twin F) (temp : F) (c : Dict F)
      → Readings twin temp
      → fl.le (fl.dec 35 0) temp ≡ true
      → cooling now c (cooldown_key overheat_shutdown twin) (pos 300) ≡ false
      → (visit now twin overheat_shutdown c).0 ≡ ok (firings overheat_shutdown)
  unfolding visit check overheat_shutdown
  visit_overheat now twin temp c r hot idle =
      let cond : RuleCondition F = record {
        field = "current_temp";
        operator = "gte";
        value = fl.dec 35 0;
      } in
      let reads = check_value_reads r.temp_value cond temp r.temp_reads in
      ground (arith, reads, r.temp_there)

  firings_overheat :
      firings {F = F} overheat_shutdown
      ≡ (overheat_shutdown, shut_down_action) ∷ (overheat_shutdown, report) ∷ []
  unfolding firings overheat_shutdown
  firings_overheat = refl

  -- The firings of a hot twin begin with the shutdown.
  overheat_first :
      (now : F) (twin : Twin F) (temp : F) (c : Dict F)
      → Readings twin temp
      → fl.le (fl.dec 35 0) temp ≡ true
      → cooling now c (cooldown_key overheat_shutdown twin) (pos 300) ≡ false
      → (rest : Firings F) × ((visit_all now twin default_rules c).0
          ≡ ok ((overheat_shutdown, shut_down_action) ∷ rest))
  unfolding default_rules
  overheat_first now twin temp c r hot idle =
      let others : List (Rule F) =
        high_temp_max_fan ∷ high_load_alert ∷ energy_saving_auto_fan ∷ [] in
      let first = visit_overheat now twin temp c r hot idle ∙ ap ok firings_overheat in
      let (there, rest) =
        visit_all_total now twin others (visit now twin overheat_shutdown c).1
          (default_rules-readable twin temp r).1 in
      let joined =
        visit_all-join now twin overheat_shutdown others c
          ((overheat_shutdown, shut_down_action) ∷ (overheat_shutdown, report) ∷ []) there first
          rest in
      ((overheat_shutdown, report) ∷ there, joined.0)

  pub evaluate_overheat :
      (now : F) (twin : Twin F) (temp : F) (e : RuleEngine F)
      → Readings twin temp
      → fl.le (fl.dec 35 0) temp ≡ true
      → e.rules ≡ default_rules
      → cooling now e.cooldowns (cooldown_key overheat_shutdown twin) (pos 300) ≡ false
      → (rest : Firings F) × ((evaluate now twin e).0
          ≡ ok ((overheat_shutdown, shut_down_action) ∷ rest))
  unfolding evaluate
  evaluate_overheat now twin temp e r hot rules idle =
      let (rest, h) = overheat_first now twin temp e.cooldowns r hot idle in
      (rest, ap (λ rs. (visit_all now twin rs e.cooldowns).0) rules ∙ h)
