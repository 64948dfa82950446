-- ===== src/Control/Rules/Total.antt =====
-- When `RuleEngine.evaluate` (main (2).py) returns.
use centralized_hvac_system.Prelude.{
  ◌≡◌, refl, ap, ◌∙◌, Bool, false, Option, none, some, List, [], ◌∷◌, ◌++◌, All, arith, inl, inr,
}
use centralized_hvac_system.Prelude.Result.{ok, Exec, and_then, and_then_returns, Result-cases}
use centralized_hvac_system.Float.{Float}
use centralized_hvac_system.Dict.{Dict, lookup}
use centralized_hvac_system.Control.Value.{Value, null, Twin, to_float}
use centralized_hvac_system.Control.Rules.{
  Rule, RuleCondition, RuleEngine, Firings, apply_operator, check_value, check, checks, visit,
  visit_all, evaluate,
}

module _ {F : Type 0} ⦃fl : Float F⦄ where
  -- A condition can be decided on the field: it is missing, or None, or `float` accepts it.
  abbrev pub Readable : Option (Value F) → Type 0
  Readable none = Unit
  Readable (some null) = Unit
  Readable (some v) = (x : F) × (to_float v ≡ ok x)

  -- A field that reads as `x` is compared as `x`.
  pub check_value_reads :
      (v : Value F) (c : RuleCondition F) (x : F)
      → to_float v ≡ ok x
      → check_value (some v) c ≡ ok (apply_operator c.operator x c.value)
  unfolding check_value to_float
  check_value_reads null c x h = cc
  check_value_reads v c x h = ground arith

  check_value_total :
      (v : Option (Value F)) (c : RuleCondition F)
      → Readable v
      → (b : Bool) × (check_value v c ≡ ok b)
  check_value_total none c h = unfold check_value in (false, refl)
  check_value_total (some null) c h = unfold check_value in (false, refl)
  check_value_total (some v) c h =
      (apply_operator c.operator h.0 c.value, check_value_reads v c h.0 h.1)

  -- Every condition of every rule can be decided on the twin.
  abbrev pub AllReadable : Twin F → List (Rule F) → Type 0
  AllReadable twin rules = All (λ r. All (λ c. Readable (lookup c.field twin)) r.conditions) rules

  checks-cons :
      (twin : Twin F) (c : RuleCondition F) (cs : List (RuleCondition F)) (b : Bool)
      (bs : List Bool)
      → check twin c ≡ ok b
      → checks twin cs ≡ ok bs
      → checks twin (c ∷ cs) ≡ ok (b ∷ bs)
  unfolding checks
  checks-cons twin c cs b bs e e' = ground arith

  check_total :
      (twin : Twin F) (c : RuleCondition F)
      → Readable (lookup c.field twin)
      → (b : Bool) × (check twin c ≡ ok b)
  unfolding check
  check_total twin c h = check_value_total (lookup c.field twin) c h

  checks_total :
      (twin : Twin F) (cs : List (RuleCondition F))
      → All (λ c. Readable (lookup c.field twin)) cs
      → (bs : List Bool) × (checks twin cs ≡ ok bs)
  checks_total twin [] h = unfold checks in ([], refl)
  checks_total twin (c ∷ cs) h =
      let (b, e) = check_total twin c h.0 in
      let (bs, e') = checks_total twin cs h.1 in (b ∷ bs, checks-cons twin c cs b bs e e')

  -- A turn that returned and a pass over the other rules that returned join to one that returns.
  pub visit_all-join :
      (now : F) (twin : Twin F) (r : Rule F) (rules : List (Rule F)) (c : Dict F)
      (here there : Firings F)
      → (visit now twin r c).0 ≡ ok here
      → (visit_all now twin rules (visit now twin r c).1).0 ≡ ok there
      → ((visit_all now twin (r ∷ rules) c).0 ≡ ok (here ++ there))
        × ((visit_all now twin (r ∷ rules) c).1
            ≡ (visit_all now twin rules (visit now twin r c).1).1)
  unfolding visit_all
  visit_all-join now twin r rules c here there first rest =
      let c' = (visit now twin r c).1 in
      let f : Firings F → Exec (Dict F) (Firings F) =
        λ h c''. and_then (visit_all now twin rules c'') λ t c3. (ok (h ++ t), c3) in
      let g : Firings F → Exec (Dict F) (Firings F) = λ t c3. (ok (here ++ t), c3) in
      let e = and_then_returns (visit now twin r c) f here first in
      let e' = and_then_returns (visit_all now twin rules c') g there rest in
      (ap (λ m. m.0) (e ∙ e'), ap (λ m. m.1) (e ∙ e'))

  visit_total :
      (now : F) (twin : Twin F) (r : Rule F) (c : Dict F)
      → All (λ c. Readable (lookup c.field twin)) r.conditions
      → (out : Firings F) × ((visit now twin r c).0 ≡ ok out)
  unfolding visit
  visit_total now twin r c h =
      let (bs, e) = checks_total twin r.conditions h in
      elim (Result-cases (visit now twin r c).0) [
        | inl returned ↦ returned
        | inr (x, e') ↦ absurd (ground arith)
      ]

  pub visit_all_total :
      (now : F) (twin : Twin F) (rules : List (Rule F)) (c : Dict F)
      → AllReadable twin rules
      → (out : Firings F) × ((visit_all now twin rules c).0 ≡ ok out)
  visit_all_total now twin [] c h = unfold visit_all in ([], refl)
  visit_all_total now twin (r ∷ rules) c h =
      let (here, first) = visit_total now twin r c h.0 in
      let (there, rest) = visit_all_total now twin rules (visit now twin r c).1 h.1 in
      (here ++ there, (visit_all-join now twin r rules c here there first rest).0)

  -- An evaluation returns when every condition's field is missing, None, or readable as a number.
  pub evaluate_total :
      (now : F) (twin : Twin F) (e : RuleEngine F)
      → AllReadable twin e.rules
      → (out : Firings F) × ((evaluate now twin e).0 ≡ ok out)
  unfolding evaluate
  evaluate_total now twin e h = visit_all_total now twin e.rules e.cooldowns h
