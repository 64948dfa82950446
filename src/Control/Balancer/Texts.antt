-- ===== src/Control/Balancer/Texts.antt =====
-- `LoadBalancer.evaluate_zone` (main (2).py) on twins whose values are all texts, as Redis returns
-- them.
use centralized_hvac_system.Prelude.{
  String, ◌≡◌, ◌≢◌, refl, inl, inr, Bool, false, some, List, [], ◌∷◌, arith, All, select,
  select-select, List-cases, ◌≤◌, ◌<◌, Bool-cases,
}
use centralized_hvac_system.Prelude.Result.{Result, ok, raised, type_error, ◌>>=◌}
use centralized_hvac_system.Float.{Float}
use centralized_hvac_system.Dict.{Dict, lookup}
use centralized_hvac_system.Models.{ControlCommand}
use centralized_hvac_system.Control.Value.{text, Twin}
use centralized_hvac_system.Control.Balancer.{
  with_status, Survey, over, survey, zone_cooling, evaluate_zone, threshold_count,
}
use centralized_hvac_system.Control.Balancer.Choice.{has_status, is_hot, evaluate_zone_lem}

module _ {F : Type 0} where
  -- A twin whose status and load are there, as texts.
  pub record FromRedis (t : Twin F) : Type 0 where
    pub status : String
    pub load : String
    pub status_there : lookup "status" t ≡ some (text status)
    pub load_there : lookup "load_percentage" t ≡ some (text load)

  with_status_total :
      (s : String) (ts : List (Twin F))
      → All FromRedis ts
      → with_status s ts ≡ ok (select (has_status s) ts)
  unfolding with_status
  with_status_total s [] h = refl
  with_status_total s (t ∷ ts) h = ground (arith, with_status_total s ts h.1, h.0.status_there)

module _ {F : Type 0} ⦃fl : Float F⦄ where
  over_texts : (t : Twin F) (ts : List (Twin F)) → FromRedis t → over (t ∷ ts) ≡ raised type_error
  unfolding over
  over_texts t ts h = ground (arith, h.load_there)

  select-FromRedis :
      (p : Twin F → Bool) (ts : List (Twin F)) → All FromRedis ts → All FromRedis (select p ts)
  select-FromRedis p [] h = tt
  select-FromRedis p (t ∷ ts) h = elim (Bool-cases (p t)) [
    | inl keep ↦ rw keep (h.0, select-FromRedis p ts h.1)
    | inr drop ↦ rw drop (select-FromRedis p ts h.1)
  ]

  survey_texts :
      (ts : List (Twin F))
      → All FromRedis ts
      → select (has_status "ON") ts ≢ []
      → survey ts ≡ raised type_error
  unfolding survey
  survey_texts ts h running =
      rw (with_status_total "ON" ts h, with_status_total "STANDBY" ts h)
        (head_raises _ (select-FromRedis (has_status "ON") ts h) running)
    where
      head_raises :
          (l : List (Twin F))
          → All FromRedis l
          → l ≢ []
          → ◌≡◌ {A = Result (Survey F)}
              (over l >>= λ o. ok (record {
                on_units = l;
                standby_units = select (has_status "STANDBY") ts;
                overloaded = o;
              }))
              (raised type_error)
      head_raises [] k ne = absurd (ne refl)
      head_raises (t ∷ l) k ne = rw (over_texts t l k.0)

  -- On twins as Redis returns them, with a running unit and the zone not cooling, the balancer
  -- raises TypeError and changes nothing.
  pub evaluate_zone_raises :
      (now : F) (corr zone_id : String) (ts : List (Twin F)) (c : Dict F)
      → All FromRedis ts
      → select (has_status "ON") ts ≢ []
      → zone_cooling now c zone_id ≡ false
      → evaluate_zone now corr zone_id ts c ≡ (raised type_error, c)
  unfolding evaluate_zone
  evaluate_zone_raises now corr zone_id ts c h running idle = rw (idle, survey_texts ts h running)

  -- On twins as Redis returns them the balancer never gives a command.
  pub evaluate_zone_never :
      (now : F) (corr zone_id : String) (ts : List (Twin F)) (c : Dict F) (cmd : ControlCommand F)
      → All FromRedis ts
      → (evaluate_zone now corr zone_id ts c).0 ≢ ok (some cmd)
  evaluate_zone_never now corr zone_id ts c cmd h e =
      let (idle, _, justified) = evaluate_zone_lem now corr zone_id ts c cmd e in
      let reason = justified.2 in
      elim (List-cases (select (has_status "ON") ts)) [
        | inl quiet ↦ elim reason [
          | inl woken ↦ few (rw (← select-select (has_status "ON") is_hot ts, quiet) at (woken.2))
          | inr rested ↦ few_running (rw quiet at (rested.2))
        ]
        | inr running ↦ cc (evaluate_zone_raises now corr zone_id ts c h running idle)
      ]
    where
      few : threshold_count ≤ 0 → ⊥
      few h = omega arith

      few_running : 1 < 0 → ⊥
      few_running h = omega arith
