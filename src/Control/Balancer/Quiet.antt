-- ===== src/Control/Balancer/Quiet.antt =====
-- The zone cooldowns of `LoadBalancer` (main (2).py) over several evaluations.
use centralized_hvac_system.Prelude.{
  String, ◌≡◌, refl, ap, ◌∙◌, ◌⊎◌, inl, inr, true, false, none, some, List, [], ◌∷◌, All, arith,
  ◌==◌,
}
use centralized_hvac_system.Prelude.Result.{ok, Result-cases}
use centralized_hvac_system.Float.{Float}
use centralized_hvac_system.Dict.{Dict, lookup, lookup-insert}
use centralized_hvac_system.Models.{ControlCommand}
use centralized_hvac_system.Control.Value.{Twin}
use centralized_hvac_system.Control.Balancer.{
  survey, least_loaded, command_unit, scale_in, decide, zone_cooling, evaluate_zone, average_load,
  zone_cooldown_s,
}
use centralized_hvac_system.Control.Balancer.Choice.{evaluate_zone_lem}

-- An evaluation of a zone.
pub record ZoneTurn (F : Type 0) : Type 0 where
  pub now : F
  pub corr : String
  pub zone_id : String
  pub twins : List (Twin F)

module _ {F : Type 0} ⦃fl : Float F⦄ where
  -- The cooldowns after some evaluations, whatever they answer.
  abbrev pub evaluations : List (ZoneTurn F) → Dict F → Dict F
  evaluations [] c = c
  evaluations (v ∷ vs) c = evaluations vs (evaluate_zone v.now v.corr v.zone_id v.twins c).1

  scale_in_other :
      (z : String) (now : F) (corr zone_id : String) (units : List (Twin F)) (c : Dict F)
      → (zone_id == z) ≡ false
      → lookup z (scale_in now corr zone_id units c).1 ≡ lookup z c
  unfolding scale_in command_unit
  scale_in_other z now corr zone_id [] c h = refl
  scale_in_other z now corr zone_id (t ∷ ts) c h = elim (Result-cases (average_load (t ∷ ts))) [
    | inl (avg, e) ↦ elim (Result-cases (least_loaded t ts)) [
      | inl (m, e') ↦ ground (arith, lookup-insert zone_id z now c)
      | inr (x, e') ↦ ground arith
    ]
    | inr (x, e) ↦ ground arith
  ]

  decide_other :
      (z : String) (now : F) (corr zone_id : String)
      (on_units standby_units overloaded : List (Twin F)) (c : Dict F)
      → (zone_id == z) ≡ false
      → lookup z (decide now corr zone_id on_units standby_units overloaded c).1 ≡ lookup z c
  unfolding decide command_unit
  decide_other z now corr zone_id units [] overloaded c h =
      scale_in_other z now corr zone_id units c h
  decide_other z now corr zone_id units (t ∷ ts) overloaded c h =
      elim (Result-cases (least_loaded t ts)) [
        | inl (m, e') ↦
            ground
              (arith, lookup-insert zone_id z now c, scale_in_other z now corr zone_id units c h)
        | inr (x, e') ↦ ground (arith, scale_in_other z now corr zone_id units c h)
      ]

  -- An evaluation of another zone leaves this zone's cooldown alone.
  evaluate_zone_other :
      (z : String) (now : F) (corr zone_id : String) (twins : List (Twin F)) (c : Dict F)
      → (zone_id == z) ≡ false
      → lookup z (evaluate_zone now corr zone_id twins c).1 ≡ lookup z c
  unfolding evaluate_zone
  evaluate_zone_other z now corr zone_id twins c h = elim (Result-cases (survey twins)) [
    | inl (s, e) ↦
        ground (arith, decide_other z now corr zone_id s.on_units s.standby_units s.overloaded c h)
    | inr (x, e) ↦ ground arith
  ]

  silent :
      (now : F) (corr zone_id : String) (twins : List (Twin F)) (c : Dict F) (t : F)
      → lookup zone_id c ≡ some t
      → fl.lt (fl.sub now t) zone_cooldown_s ≡ true
      → evaluate_zone now corr zone_id twins c ≡ (ok none, c)
  unfolding evaluate_zone zone_cooling
  silent now corr zone_id twins c t noted within = ground arith

  -- Another zone, or a time within the zone's cooldown, which began at `t`.
  abbrev pub IsQuiet : String → F → ZoneTurn F → Type 0
  IsQuiet z t v =
      ((v.zone_id == z) ≡ false)
      ⊎ ((v.zone_id ≡ z) × (fl.lt (fl.sub v.now t) zone_cooldown_s ≡ true))

  evaluations_noted :
      (z : String) (t : F) (vs : List (ZoneTurn F)) (c : Dict F)
      → lookup z c ≡ some t
      → All (IsQuiet z t) vs
      → lookup z (evaluations vs c) ≡ some t
  evaluations_noted z t [] c noted h = noted
  evaluations_noted z t (v ∷ vs) c noted (inl other, h) =
      evaluations_noted z t vs (evaluate_zone v.now v.corr v.zone_id v.twins c).1
        (evaluate_zone_other z v.now v.corr v.zone_id v.twins c other ∙ noted) h
  evaluations_noted z t (v ∷ vs) c noted (inr (same, within), h) =
      let still =
        silent v.now v.corr v.zone_id v.twins c t (ap (λ k. lookup k c) same ∙ noted) within in
      evaluations_noted z t vs (evaluate_zone v.now v.corr v.zone_id v.twins c).1
        (ap (λ r. lookup z r.1) still ∙ noted) h

  -- Within 120 seconds of a command the balancer gives no command in that zone and leaves the
  -- cooldowns as they are, whatever evaluations come in between, of other zones at any time and of
  -- the zone itself within the 120 seconds.
  pub no_oscillation :
      (now later : F) (corr corr' zone_id : String) (twins twins' : List (Twin F)) (c : Dict F)
      (cmd : ControlCommand F) (vs : List (ZoneTurn F))
      → (evaluate_zone now corr zone_id twins c).0 ≡ ok (some cmd)
      → All (IsQuiet zone_id now) vs
      → fl.lt (fl.sub later now) (fl.dec 120 0) ≡ true
      → let c' = evaluations vs (evaluate_zone now corr zone_id twins c).1 in
        evaluate_zone later corr' zone_id twins' c' ≡ (ok none, c')
  no_oscillation now later corr corr' zone_id twins twins' c cmd vs h quiet within =
      let (_, noted, _) = evaluate_zone_lem now corr zone_id twins c cmd h in
      let c1 = (evaluate_zone now corr zone_id twins c).1 in
      silent later corr' zone_id twins' (evaluations vs c1) now
        (evaluations_noted zone_id now vs c1 noted quiet) within
