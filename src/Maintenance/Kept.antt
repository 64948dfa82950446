-- ===== src/Maintenance/Kept.antt =====
-- What the steps of an analysis before its report leave alone (main (4).py, `_train_anomaly_model`,
-- `detect_anomalies`).
use centralized_hvac_system.Prelude.{
  String, ◌≡◌, refl, Option, none, some, ltb, Bool-cases, inl, inr,
}
use centralized_hvac_system.Prelude.Result.{Result-cases}
use centralized_hvac_system.Float.{Float}
use centralized_hvac_system.Dict.{lookup}
use centralized_hvac_system.Maintenance.{
  Outside, Maintenance, train_anomaly_model, keep_model, min_samples,
}
use centralized_hvac_system.Maintenance.Analysis.{judge_unit, detect_anomalies}

-- Nothing was stored and nothing was published.
abbrev pub Same : {F M : Type 0} → Maintenance F M → Maintenance F M → Type 0
Same s s' = (s'.table ≡ s.table) × (s'.published ≡ s.published)

pub keep_model-Same :
    {F M : Type 0} (unit_id : String) (model : Option M) (s : Maintenance F M)
    → Same s (keep_model unit_id model s)
unfolding keep_model
keep_model-Same unit_id none s = (refl, refl)
keep_model-Same unit_id (some m) s = (refl, refl)

module _ {F D M : Type 0} ⦃fl : Float F⦄ where
  pub train-Same :
      (out : Outside F D M) (df : D) (s : Maintenance F M) → (train_anomaly_model out df s).1 ≡ s
  unfolding train_anomaly_model
  train-Same out df s = elim (Bool-cases (ltb (out.rows df) min_samples)) [
    | inl few ↦ rw few refl
    | inr many ↦ elim (Result-cases (out.build_features df)) [
      | inr (e, failed) ↦ rw many (rw failed refl)
      | inl (feat, built) ↦ elim (Bool-cases (ltb (out.rows feat) min_samples)) [
        | inl few ↦ rw many (rw built (rw few refl))
        | inr enough ↦ elim (Result-cases (out.fit feat)) [
          | inr (e, failed) ↦ rw many (rw built (rw enough (rw failed refl)))
          | inl (model, fitted) ↦ rw many (rw built (rw enough (rw fitted refl)))
        ]
      ]
    ]
  ]

  judge_unit-Same :
      (out : Outside F D M) (df : D) (model : Option M) (s : Maintenance F M)
      → (judge_unit out df model s).1 ≡ s
  unfolding judge_unit
  judge_unit-Same out df none s = refl
  judge_unit-Same out df (some model) s =
      elim (Result-cases (out.build_features (out.last_rows 60 df))) [
        | inr (e, failed) ↦ rw failed refl
        | inl (feat, built) ↦ elim (Bool-cases (ltb (out.rows feat) 1)) [
          | inl empty ↦ rw built (rw empty refl)
          | inr filled ↦ elim (Result-cases (out.judge model feat)) [
            | inr (e, failed) ↦ rw built (rw filled (rw failed refl))
            | inl (verdict, judged) ↦ rw built (rw filled (rw judged refl))
          ]
        ]
      ]

  pub detect-Same :
      (out : Outside F D M) (unit_id : String) (df : D) (s : Maintenance F M)
      → (detect_anomalies out unit_id df s).1 ≡ s
  unfolding detect_anomalies
  detect-Same out unit_id df s = judge_unit-Same out df (lookup unit_id s.models) s
