-- ===== src/Maintenance/Risk.antt =====
-- What an analysis of the predictive maintenance service leaves behind (main (4).py,
-- `analyse_unit`).
use centralized_hvac_system.Prelude.{
  ◌+◌, String, ◌≡◌, refl, ap, ◌∙◌, Bool, true, Option, none, some, List, ◌++◌, arith, ltb,
  if◌then◌else◌, Bool-cases, inl, inr, ◌⊎◌, sym, append_nil, [], ◌∷◌,
}
use centralized_hvac_system.Prelude.Result.{Result, ok, raised, Exec, and_then, Result-cases}
use centralized_hvac_system.Float.{Float, IsOrdered}
use centralized_hvac_system.Dict.{insert}
use centralized_hvac_system.Maintenance.{
  Outside, FeatureRow, MaintenancePrediction, Maintenance, train_anomaly_model, keep_model,
}
use centralized_hvac_system.Maintenance.Score.{eight, n_features, make_recommendation, risk_alert}
use centralized_hvac_system.Models.{critical, warning}
use centralized_hvac_system.Maintenance.Analysis.{
  detect_anomalies, extract_feature_vector, compute_rul, prediction, upsert, announce, report_unit,
  analysis, caught, analyse_unit,
}
use centralized_hvac_system.Maintenance.Kept.{Same, keep_model-Same, train-Same, detect-Same}

abbrev pub Between : {F : Type 0} ⦃fl : Float F⦄ → F → F → F → Type 0
Between {F} ⦃fl⦄ lo hi x = (fl.le lo x ≡ true) × (fl.le x hi ≡ true)

module _ {F M : Type 0} ⦃fl : Float F⦄ where
  -- The row of the unit was stored, with a risk that asks for an alert.
  abbrev pub StoredOnly : String → Maintenance F M → Maintenance F M → Type 0
  StoredOnly unit_id s s' =
      (row : FeatureRow F) × (risk : F) × (s'.table ≡ insert unit_id row s.table)
      × (row.risk_score ≡ some risk)
      × (fl.le (fl.dec 7 1) risk ≡ true)

  -- What the analysis of a unit may come to: nothing published, with the table as it was or only the
  -- row stored, or a prediction with the numbers that it was made from, the stored row, and the
  -- alert.
  abbrev pub Outcome :
      String → Maintenance F M → Option (MaintenancePrediction F) × Maintenance F M → Type 0
  Outcome unit_id s (none, s') =
      (s'.published ≡ s.published) × ((s'.table ≡ s.table) ⊎ StoredOnly unit_id s s')
  Outcome unit_id s (some p, s') =
      (rul : F) × (risk : F) × (now : F) × (row : FeatureRow F) × Between (fl.dec 0 0)
        (fl.dec 730 0) rul
      × Between (fl.dec 0 0) (fl.dec 1 0) risk
      × (p.rul_days ≡ fl.round_to rul 1)
      × (p.risk_score ≡ fl.round_to risk 3)
      × (p.recommendation ≡ make_recommendation rul risk p.is_anomalous)
      × (s'.table ≡ insert unit_id row s.table)
      × (row.rul_days ≡ some rul)
      × (row.risk_score ≡ some risk)
      × (s'.published
          ≡ s.published
            ++ (if fl.le (fl.dec 7 1) risk
                then record {
                  unit_id = unit_id;
                  severity = if fl.le (fl.dec 9 1) risk then critical else warning;
                  message = p.recommendation;
                  rul_days = rul;
                  risk_score = risk;
                  ts = now;
                }
                  ∷ []
                else []))

  and_then-Outcome :
      {A : Type 0} (unit_id : String) (s : Maintenance F M) (m : Result A × Maintenance F M)
      (f : A → Exec (Maintenance F M) (Option (MaintenancePrediction F)))
      → Same s m.1
      → ((a : A) → Outcome unit_id s (caught (f a m.1)))
      → Outcome unit_id s (caught (and_then m f))
  unfolding caught
  and_then-Outcome unit_id s (ok a, s1) f h k = k a
  and_then-Outcome unit_id s (raised e, s1) f h k = (h.1, inl h.0)

module _ {F D M : Type 0} ⦃fl : Float F⦄ where
  -- `np.clip` moves a number between its limits; the model predicts numbers, and a share of the year
  -- is a number. What is not a number is not `<=` itself.
  pub record IsNumeric (out : Outside F D M) : Type 0 where
    pub clip-Between :
        (x lo hi : F) → fl.le x x ≡ true → fl.le lo hi ≡ true → Between lo hi (out.clip x lo hi)
    pub predicts :
        (model : List F → F) (fv : List F)
        → out.rul_model ≡ some model
        → fl.le (model fv) (model fv) ≡ true
    pub share :
        (x : F)
        → Between (fl.dec 0 0) (fl.dec 730 0) x
        → let y = fl.sub (fl.dec 1 0) (fl.div x (fl.dec 365 0)) in fl.le y y ≡ true

  report_unit-Outcome :
      (out : Outside F D M) (unit_id : String) (df feat : D) (verdict : Bool × F) (rul risk : F)
      (s s1 : Maintenance F M)
      → Between (fl.dec 0 0) (fl.dec 730 0) rul
      → Between (fl.dec 0 0) (fl.dec 1 0) risk
      → Same s s1
      → Outcome unit_id s (caught (report_unit out unit_id df feat verdict (rul, risk) s1))
  unfolding report_unit prediction upsert announce risk_alert caught
  report_unit-Outcome out unit_id df feat verdict rul risk s s1 h k same =
      let row : FeatureRow F = record {
        avg_load = out.mean "load" df;
        avg_power = out.mean "power_w" df;
        risk_score = some risk;
        rul_days = some rul;
        anomaly_count = some (if verdict.0 then 1 else 0);
        last_computed = some (out.clock (s1.readings + 1));
      } in
      let now = out.clock (s1.readings + 2) in
      let stored = ap (insert unit_id row) same.0 in
      elim (Bool-cases (out.accepts unit_id)) [
        | inr refused ↦ rw refused (same.1, inl same.0)
        | inl accepted ↦ elim (Bool-cases (fl.le (fl.dec 7 1) risk)) [
          | inr low ↦
              rw (accepted, low)
                (
                  rul,
                  risk,
                  now,
                  row,
                  h,
                  k,
                  refl,
                  refl,
                  refl,
                  stored,
                  refl,
                  refl,
                  (rw low (same.1 ∙ sym (append_nil s.published))),
                )
          | inl high ↦ elim (Result-cases (out.delivers (s1.readings + 3))) [
            | inr (e, lost) ↦
                rw (accepted, high, lost) (same.1, inr (row, risk, stored, refl, high))
            | inl (done, given) ↦
                rw (accepted, high, given)
                  (
                    rul,
                    risk,
                    now,
                    row,
                    h,
                    k,
                    refl,
                    refl,
                    refl,
                    stored,
                    refl,
                    refl,
                    (rw high (rw (same.1) refl)),
                  )
          ]
        ]
      ]

  compute_rul-Between :
      (laws : IsOrdered F) (out : Outside F D M)
      → IsNumeric out
      → (model : Option (List F → F)) (fv : Option (List F)) → out.rul_model ≡ model
      → Between (fl.dec 0 0) (fl.dec 730 0) (compute_rul out model fv).0
        × Between (fl.dec 0 0) (fl.dec 1 0) (compute_rul out model fv).1
  unfolding compute_rul
  compute_rul-Between laws out num (some model) (some fv) h =
      let days =
        num.clip-Between _ (fl.dec 0 0) (fl.dec 730 0) (num.predicts model (eight n_features fv) h)
          (laws.dec_le 0 730 0 (omega arith)) in
      (
        days,
        num.clip-Between _ (fl.dec 0 0) (fl.dec 1 0) (num.share _ days)
            (laws.dec_le 0 1 0 (omega arith)),
      )
  compute_rul-Between laws out num (some model) none h = (
    (laws.dec_le 0 180 0 (omega arith), laws.dec_le 180 730 0 (omega arith)),
    (laws.dec_le 0 0 0 (omega arith), laws.dec_le 0 1 0 (omega arith)),
  )
  compute_rul-Between laws out num none fv h = (
    (laws.dec_le 0 180 0 (omega arith), laws.dec_le 180 730 0 (omega arith)),
    (laws.dec_le 0 0 0 (omega arith), laws.dec_le 0 1 0 (omega arith)),
  )

  analysed :
      (laws : IsOrdered F) (out : Outside F D M)
      → IsNumeric out
      → (unit_id : String) (df : D) (model : Option M) (s s1 : Maintenance F M) → Same s s1
      → Outcome unit_id s (
          caught (
            and_then (detect_anomalies out unit_id df (keep_model unit_id model s1)) λ verdict s.
              and_then
                (out.build_features df, s)
                λ feat s.
                  report_unit out unit_id df feat verdict
                    (compute_rul out out.rul_model (extract_feature_vector out feat))
                    s))
  analysed laws out num unit_id df model s s1 same =
      let kept = keep_model-Same unit_id model s1 in
      let judged = detect-Same out unit_id df (keep_model unit_id model s1) in
      let s2 = (detect_anomalies out unit_id df (keep_model unit_id model s1)).1 in
      let same2 : Same s s2 = (
        ap (λ x. x.table) judged ∙ (kept.0 ∙ same.0),
        ap (λ x. x.published) judged ∙ (kept.1 ∙ same.1),
      ) in
      and_then-Outcome unit_id s (detect_anomalies out unit_id df (keep_model unit_id model s1)) _
        same2
        (λ verdict.
          and_then-Outcome unit_id s (out.build_features df, s2) _ same2
            (λ feat.
              let ranges =
                compute_rul-Between laws out num out.rul_model (extract_feature_vector out feat)
                  refl in
              let (rul, risk) = compute_rul out out.rul_model (extract_feature_vector out feat) in
              report_unit-Outcome out unit_id df feat verdict rul risk s s2 ranges.0 ranges.1
                same2))

  -- Where clip, the model and the share of the year give numbers: an analysis that gives no
  -- prediction, whatever failed in it, publishes nothing, and stores nothing either, or only the
  -- unit's row, with a risk of 0.7 or more. One that gives a prediction is made from some days left,
  -- between 0 and 730, and some risk, between 0 and 1: it shows them rounded and recommends what they
  -- ask for, the unit's row with them is the one change of the table, and what was published is one
  -- alert, critical from 0.9 on and a warning otherwise, if the risk is 0.7 or more, and nothing
  -- else.
  pub analyse_unit-Outcome :
      (laws : IsOrdered F) (out : Outside F D M)
      → IsNumeric out
      → (unit_id : String) (s : Maintenance F M) → Outcome unit_id s (analyse_unit out unit_id s)
  unfolding analyse_unit analysis
  analyse_unit-Outcome laws out num unit_id s =
      and_then-Outcome unit_id s (out.load_telemetry unit_id, s) _ (refl, refl)
        (λ df. elim (Bool-cases (ltb (out.rows df) 10)) [
          | inl few ↦ rw few (unfold caught in (refl, inl refl))
          | inr enough ↦ rw enough (
              let trained = train-Same out df s in
              let same : Same s (train_anomaly_model out df s).1 =
                (ap (λ x. x.table) trained, ap (λ x. x.published) trained) in
              and_then-Outcome unit_id s (train_anomaly_model out df s) _ same (λ model.
                analysed laws out num unit_id df model s (train_anomaly_model out df s).1 same))
        ])
