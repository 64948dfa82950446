-- ===== src/Control/Balancer/Choice.antt =====
-- The decisions of `LoadBalancer.evaluate_zone` (main (2).py).
use centralized_hvac_system.Prelude.{
  String, ◌≡◌, ap, ◌∙◌, ◌⊎◌, inl, inr, Bool, false, ◌&&◌, Option, none, some, List, [], ◌∷◌, ◌≤◌,
  ◌<◌, arith, length, select, Among, select-select, if◌then◌else◌, Bool-cases, leb,
}
use centralized_hvac_system.Prelude.Result.{Result, ok, ◌>>=◌, >>=-eq-ok, Result-cases}
use centralized_hvac_system.Float.{Float}
use centralized_hvac_system.Dict.{Dict, lookup, lookup-insert_self}
use centralized_hvac_system.Models.{UnitStatus, on, standby, ControlCommand}
use centralized_hvac_system.Control.Value.{Value, text, Twin, item, is_text, as_number, less}
use centralized_hvac_system.Control.Balancer.{
  with_status, Survey, over, survey, least_from, least_loaded, command_unit, scale_in, decide,
  zone_cooling, evaluate_zone, average_load, high_load_pct, threshold_count,
}

module _ {F : Type 0} where
  -- The twin's status is that text.
  abbrev pub has_status : String → Twin F → Bool
  has_status s t = is_text (lookup "status" t) s

  -- A list comprehension that returned kept exactly the twins of that status.
  pub with_status-eq-select :
      (s : String) (ts l : List (Twin F)) → with_status s ts ≡ ok l → l ≡ select (has_status s) ts
  unfolding with_status
  with_status-eq-select s [] l h = ground arith
  with_status-eq-select s (t ∷ ts) l h = elim (Result-cases (with_status s ts)) [
    | inl (rest, e) ↦ ground (arith, with_status-eq-select s ts rest e)
    | inr (x, e) ↦ absurd (ground arith)
  ]

module _ {F : Type 0} ⦃fl : Float F⦄ where
  least_from-cons :
      (best : Twin F) (k : Value F) (t : Twin F) (ts : List (Twin F)) (m : Twin F)
      → least_from best k (t ∷ ts) ≡ ok m
      → (v : Value F) × (smaller : Bool) × (least_from
            (if smaller then t else best)
            (if smaller then v else k)
            ts
          ≡ ok m)
  unfolding least_from
  least_from-cons best k t ts m h =
      let step : Value F → Bool → Result (Twin F) =
        λ v smaller. least_from (if smaller then t else best) (if smaller then v else k) ts in
      let (v, _, e) = >>=-eq-ok (item t "load_percentage") (λ v. less v k >>= step v) m h in
      let (smaller, _, e') = >>=-eq-ok (less v k) (step v) m e in (v, smaller, e')

  -- `min` returns one of the twins that it is given.
  least_from-Among :
      (best : Twin F) (k : Value F) (ts : List (Twin F)) (m : Twin F)
      → least_from best k ts ≡ ok m
      → Among m (best ∷ ts)
  least_from-Among best k [] m h = unfold least_from in inl (ground arith)
  least_from-Among best k (t ∷ ts) m h =
      let (v, smaller, e) = least_from-cons best k t ts m h in
      let later =
        least_from-Among (if smaller then t else best) (if smaller then v else k) ts m e in
      elim (Bool-cases smaller) [
        | inl yes_smaller ↦ inr (rw yes_smaller at later)
        | inr not_smaller ↦ elim (rw not_smaller at later) [
          | inl here ↦ inl here
          | inr there ↦ inr (inr there)
        ]
      ]

  least_loaded-Among :
      (t : Twin F) (ts : List (Twin F)) (m : Twin F) → least_loaded t ts ≡ ok m → Among m (t ∷ ts)
  unfolding least_loaded
  least_loaded-Among t ts m h =
      let (k, _, e) = >>=-eq-ok (item t "load_percentage") (λ k. least_from t k ts) m h in
      least_from-Among t k ts m e

  -- A command to a target notes the time and carries the target's identifier.
  command_unit_lem :
      (now : F) (corr zone_id : String) (status : UnitStatus) (target : Twin F) (c : Dict F)
      (cmd : ControlCommand F)
      → (command_unit now corr zone_id status target c).0 ≡ ok (some cmd)
      → (lookup "unit_id" target ≡ some (text cmd.unit_id))
        × (cmd.status ≡ some status)
        × (lookup zone_id (command_unit now corr zone_id status target c).1 ≡ some now)
  unfolding command_unit
  command_unit_lem now corr zone_id status target c cmd h =
      ground (arith, lookup-insert_self zone_id now c)

  -- The twin's load is a number of at least 90.
  abbrev hot : Option (Value F) → Bool
  hot none = false
  hot (some v) = elim (as_number v) [ none ↦ false | some x ↦ fl.le high_load_pct x ]

  abbrev pub is_hot : Twin F → Bool
  is_hot t = hot (lookup "load_percentage" t)

  over-eq-select : (ts l : List (Twin F)) → over ts ≡ ok l → l ≡ select is_hot ts
  unfolding over
  over-eq-select [] l h = ground arith
  over-eq-select (t ∷ ts) l h = elim (Result-cases (over ts)) [
    | inl (rest, e) ↦ ground (arith, over-eq-select ts rest e)
    | inr (x, e) ↦ absurd (ground arith)
  ]

  -- A survey that returned holds the running, the waiting and the overloaded twins of the zone.
  survey-eq-select :
      (ts : List (Twin F)) (s : Survey F)
      → survey ts ≡ ok s
      → (s.on_units ≡ select (has_status "ON") ts)
        × (s.standby_units ≡ select (has_status "STANDBY") ts)
        × (s.overloaded ≡ select (λ t. has_status "ON" t && is_hot t) ts)
  unfolding survey
  survey-eq-select ts s h = elim (Result-cases (with_status "ON" ts)) [
    | inl (running, e) ↦ elim (Result-cases (with_status "STANDBY" ts)) [
      | inl (waiting, e') ↦ elim (Result-cases (over running)) [
        | inl (heated, e'') ↦
            let on_eq = with_status-eq-select "ON" ts running e in
            let standby_eq = with_status-eq-select "STANDBY" ts waiting e' in
            let over_eq = over-eq-select running heated e'' in
            let hot_eq =
              over_eq ∙ (ap (select is_hot) on_eq ∙ select-select (has_status "ON") is_hot ts) in
            ground arith
        | inr (x, e'') ↦ absurd (ground arith)
      ]
      | inr (x, e') ↦ absurd (ground arith)
    ]
    | inr (x, e) ↦ absurd (ground arith)
  ]

  -- A command of the scale-in branch puts one of several running units on standby.
  scale_in_lem :
      (now : F) (corr zone_id : String) (units : List (Twin F)) (c : Dict F)
      (cmd : ControlCommand F)
      → (scale_in now corr zone_id units c).0 ≡ ok (some cmd)
      → (m : Twin F) × Among m units
        × (1 < length units)
        × (lookup "unit_id" m ≡ some (text cmd.unit_id))
        × (cmd.status ≡ some standby)
        × (lookup zone_id (scale_in now corr zone_id units c).1 ≡ some now)
  unfolding scale_in
  scale_in_lem now corr zone_id [] c cmd h = ground arith
  scale_in_lem now corr zone_id (t ∷ ts) c cmd h = elim (Result-cases (average_load (t ∷ ts))) [
    | inl (avg, e) ↦ elim (Result-cases (least_loaded t ts)) [
      | inl (m, e') ↦ (
        m,
        least_loaded-Among t ts m e',
        ground arith,
        ground (arith, command_unit_lem now corr zone_id standby m c cmd),
        ground (arith, command_unit_lem now corr zone_id standby m c cmd),
        ground (arith, command_unit_lem now corr zone_id standby m c cmd),
      )
      | inr (x, e') ↦ absurd (ground arith)
    ]
    | inr (x, e) ↦ absurd (ground arith)
  ]

  -- A command wakes a waiting unit because three are overloaded, or rests one of several running.
  abbrev pub Justified : List (Twin F) → List (Twin F) → List (Twin F) → ControlCommand F → Type 0
  Justified on_units standby_units overloaded cmd =
      (m : Twin F) × (lookup "unit_id" m ≡ some (text cmd.unit_id))
      × (((cmd.status ≡ some on) × Among m standby_units × (threshold_count ≤ length overloaded))
          ⊎ ((cmd.status ≡ some standby) × Among m on_units × (1 < length on_units)))

  decide_lem :
      (now : F) (corr zone_id : String) (on_units standby_units overloaded : List (Twin F))
      (c : Dict F) (cmd : ControlCommand F)
      → (decide now corr zone_id on_units standby_units overloaded c).0 ≡ ok (some cmd)
      → Justified on_units standby_units overloaded cmd
        × (lookup zone_id (decide now corr zone_id on_units standby_units overloaded c).1
            ≡ some now)
  unfolding decide
  decide_lem now corr zone_id units [] overloaded c cmd h =
      let (m, a, n, u, st, noted) = scale_in_lem now corr zone_id units c cmd h in
      ((m, u, inr (st, a, n)), noted)
  decide_lem now corr zone_id units (t ∷ ts) overloaded c cmd h =
      elim (Bool-cases (leb threshold_count (length overloaded))) [
        | inl many ↦ elim (Result-cases (least_loaded t ts)) [
          | inl (m, e) ↦
              let (u, st, noted) =
                command_unit_lem now corr zone_id on m c cmd (rw (many, e) at h) in
              ((m, u, inl (st, least_loaded-Among t ts m e, ground arith)), rw (many, e) noted)
          | inr (x, e) ↦ absurd (ground arith)
        ]
        | inr few ↦
            let (m, a, n, u, st, noted) = scale_in_lem now corr zone_id units c cmd (rw few at h) in
            ((m, u, inr (st, a, n)), rw few noted)
      ]

  -- A command of the balancer comes only when the zone is not cooling, starts the zone's cooldown,
  -- and either activates a STANDBY unit of the zone while at least three ON units have a load of 90
  -- or more, or puts on standby one of several ON units of the zone.
  pub evaluate_zone_lem :
      (now : F) (corr zone_id : String) (twins : List (Twin F)) (c : Dict F)
      (cmd : ControlCommand F)
      → (evaluate_zone now corr zone_id twins c).0 ≡ ok (some cmd)
      → (zone_cooling now c zone_id ≡ false)
        × (lookup zone_id (evaluate_zone now corr zone_id twins c).1 ≡ some now)
        × Justified
            (select (has_status "ON") twins)
            (select (has_status "STANDBY") twins)
            (select (λ t. has_status "ON" t && is_hot t) twins)
            cmd
  unfolding evaluate_zone
  evaluate_zone_lem now corr zone_id twins c cmd h =
      elim (Bool-cases (zone_cooling now c zone_id)) [
        | inl cooling ↦ absurd (ground arith)
        | inr idle ↦ elim (Result-cases (survey twins)) [
          | inl (s, e) ↦
              let (justified, noted) =
                decide_lem now corr zone_id s.on_units s.standby_units s.overloaded c cmd
                  (rw (idle, e) at h) in
              let (on_eq, standby_eq, over_eq) = survey-eq-select twins s e in
              (idle, rw (idle, e) noted, rw (← on_eq, ← standby_eq, ← over_eq) justified)
          | inr (x, e) ↦ absurd (ground arith)
        ]
      ]
