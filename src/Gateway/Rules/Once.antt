-- ===== src/Gateway/Rules/Once.antt =====
-- The cooldown of `LocalRuleEngine.evaluate` (gateway.py).
use centralized_hvac_system.Prelude.{
  inl, inr, ◌≡◌, refl, ap, ◌∙◌, Bool, true, false, some, List, [], ◌∷◌, arith, or_else, All, String,
  ◌==◌,
}
use centralized_hvac_system.Prelude.Result.{ok, Result-cases}
use centralized_hvac_system.Float.{Float}
use centralized_hvac_system.Dict.{Dict, lookup, insert, lookup-insert, lookup-insert_self}
use centralized_hvac_system.Control.Rules.{fires}
use centralized_hvac_system.Gateway.Adapter.{RawTelemetry, Adapter}
use centralized_hvac_system.Gateway.Rules.{
  LocalRule, LocalAction, local_checks, apply_action, apply_actions, local_key, local_cooling,
  local_conclude, local_visit,
}

module _ {F : Type 0} ⦃fl : Float F⦄ where
  -- Carrying out actions changes no cooldown, even where one raises.
  apply_actions_lem :
      (acts : List (LocalAction F)) (s : Dict F × Adapter F) → (apply_actions acts s).1.0 ≡ s.0
  unfolding apply_actions
  apply_actions_lem [] s = refl
  apply_actions_lem (act ∷ acts) (c, a) = elim (Result-cases (apply_action act a).0) [
    | inl (done, e) ↦ rw e (apply_actions_lem acts (c, (apply_action act a).1))
    | inr (x, e) ↦ rw e refl
  ]

  visit_fired :
      (now : F) (t : RawTelemetry F) (rule : LocalRule F) (s : Dict F × Adapter F) (bs : List Bool)
      → or_else rule.enabled true ≡ true
      → local_cooling now s.0 rule t ≡ false
      → local_checks t (or_else rule.conditions []) ≡ ok bs
      → fires (or_else rule.logic "AND") bs ≡ true
      → (local_visit now t rule s).1.0 ≡ insert (local_key rule t) now s.0
  unfolding local_visit local_conclude
  visit_fired now t rule s bs on idle checked fired =
      ground (
        arith,
        apply_actions_lem (or_else rule.actions []) (insert (local_key rule t) now s.0, s.1),
      )

  same_key :
      (t t' : RawTelemetry F) (rule : LocalRule F)
      → t'.unit_id ≡ t.unit_id
      → local_key rule t' ≡ local_key rule t
  unfolding local_key
  same_key t t' rule unit = cc

  visit_resting :
      (now later : F) (t : RawTelemetry F) (rule : LocalRule F) (s : Dict F × Adapter F)
      → lookup (local_key rule t) s.0 ≡ some now
      → fl.lt (fl.sub later now) (or_else rule.cooldown_s (fl.dec 60 0)) ≡ true
      → local_visit later t rule s ≡ (ok tt, s)
  unfolding local_visit local_cooling
  visit_resting now later t rule s noted soon = ground arith

  -- A turn of another key, whatever it does and however it ends, leaves this key's cooldown alone.
  visit_other :
      (k : String) (now : F) (t : RawTelemetry F) (rule : LocalRule F) (s : Dict F × Adapter F)
      → (local_key rule t == k) ≡ false
      → lookup k (local_visit now t rule s).1.0 ≡ lookup k s.0
  unfolding local_visit local_conclude
  visit_other k now t rule (c, a) other =
      elim (Result-cases (local_checks t (or_else rule.conditions []))) [
        | inl (bs, e) ↦ ground (
          arith,
          apply_actions_lem (or_else rule.actions []) (insert (local_key rule t) now c, a),
          lookup-insert (local_key rule t) k now c,
        )
        | inr (x, e) ↦ ground arith
      ]

-- A turn of a rule on a reading, with the adapter of the unit.
pub record Turn (F : Type 0) : Type 0 where
  pub now : F
  pub telemetry : RawTelemetry F
  pub rule : LocalRule F
  pub adapter : Adapter F

module _ {F : Type 0} ⦃fl : Float F⦄ where
  -- The cooldowns after some turns.
  abbrev pub turns : List (Turn F) → Dict F → Dict F
  turns [] c = c
  turns (v ∷ vs) c = turns vs (local_visit v.now v.telemetry v.rule (c, v.adapter)).1.0

  turns_other :
      (k : String) (vs : List (Turn F)) (c : Dict F)
      → All (λ v. (local_key v.rule v.telemetry == k) ≡ false) vs
      → lookup k (turns vs c) ≡ lookup k c
  turns_other k [] c h = refl
  turns_other k (v ∷ vs) c h =
      turns_other k vs (local_visit v.now v.telemetry v.rule (c, v.adapter)).1.0 h.1
      ∙ visit_other k v.now v.telemetry v.rule (c, v.adapter) h.0

  -- A rule that is enabled, is not cooling, and whose conditions hold on a reading, notes the time
  -- even if an action of it raises: after whatever turns of rules and units with other keys, its
  -- next turn for that unit within its cooldown period, on whatever reading, does nothing.
  pub local_visit_once :
      (now later : F) (t t' : RawTelemetry F) (rule : LocalRule F) (s : Dict F × Adapter F)
      (bs : List Bool) (vs : List (Turn F)) (a : Adapter F)
      → or_else rule.enabled true ≡ true
      → local_cooling now s.0 rule t ≡ false
      → local_checks t (or_else rule.conditions []) ≡ ok bs
      → fires (or_else rule.logic "AND") bs ≡ true
      → t'.unit_id ≡ t.unit_id
      → fl.lt (fl.sub later now) (or_else rule.cooldown_s (fl.dec 60 0)) ≡ true
      → All (λ v. (local_key v.rule v.telemetry == local_key rule t) ≡ false) vs
      → let c = turns vs (local_visit now t rule s).1.0 in
        local_visit later t' rule (c, a) ≡ (ok tt, (c, a))
  local_visit_once now later t t' rule s bs vs a on idle checked fired unit soon others =
      let c1 = (local_visit now t rule s).1.0 in
      let noted = visit_fired now t rule s bs on idle checked fired in
      let found =
        ap (λ k. lookup k (turns vs c1)) (same_key t t' rule unit)
        ∙ (turns_other (local_key rule t) vs c1 others
            ∙ (ap (lookup (local_key rule t)) noted
                ∙ lookup-insert_self (local_key rule t) now s.0)) in
      visit_resting now later t' rule (turns vs c1, a) found soon
