-- ===== src/Alerts/Pipeline.antt =====
-- The pipeline of an alert (main (3).py, `emit_alert` and the handlers of the MQTT topics).
pub mod Dedup
use centralized_hvac_system.Prelude.{
  ℕ, ◌+◌, String, Bool, true, false, not, ◌&&◌, ◌||◌, Option, none, some, List, [], ◌∷◌, ◌++◌, map,
  select, ◌==◌, if◌then◌else◌, ◌<>◌, or_else,
}
use centralized_hvac_system.Prelude.Result.{
  Result, ok, raised, value_error, validation_error, Exec, and_then, ◌>>=◌,
}
use centralized_hvac_system.Float.{Float}
use centralized_hvac_system.Dict.{Dict, lookup}
use centralized_hvac_system.Redis.{Redis}
use centralized_hvac_system.Models.{
  alert_type_text, alert_type_of_text, severity_text, severity_of_text, AlertSeverity, AlertType,
  warning, TelemetryPayload, telemetry_payload,
}
use centralized_hvac_system.Control.Value.{Value, null, text, item}
use centralized_hvac_system.Alerts.Detector.{AlertPayload, AnomalyDetector, Draft, update}

abbrev pub dedup_ttl_s : ℕ
dedup_ttl_s = 300

-- An entry of WEBHOOK_ENDPOINTS.
pub record Webhook : Type 0 where
  pub url : String
  pub severity : Option String

-- What the service takes from outside: the clock, uuid4, and the texts of the messages.
pub record Env (F : Type 0) : Type 0 where
  pub clock : ℕ → F
  pub uuid : ℕ → String
  pub describe : Draft F → String
  pub show : Dict (Value F) → String

-- What PostgreSQL and the MQTT client answer for the n-th alert that gets that far: the commit of its
-- row and its publication may raise.
pub record Sinks (F : Type 0) : Type 0 where
  pub commits : ℕ → AlertPayload F → Result (Unit {0})
  pub publishes : ℕ → AlertPayload F → Result (Unit {0})

-- `stored` lists the rows of the alerts table, `published` what went to the alert topic, `posted`
-- the webhook posts that were tried, `attempts` counts the alerts that were no duplicates.
pub record AlertService (F R : Type 0) : Type 0 where
  pub detector : AnomalyDetector F
  pub redis : R
  pub stored : List (AlertPayload F)
  pub published : List (AlertPayload F)
  pub posted : List (String × AlertPayload F)
  pub webhooks : List Webhook
  pub readings : ℕ
  pub identifiers : ℕ
  pub attempts : ℕ

module _ {F : Type 0} where
  -- `_dedup_key`
  unfoldable pub dedup_key : AlertPayload F → String
  dedup_key a = "alert:" <> a.unit_id <> ":" <> alert_type_text a.alert_type

  -- `wh.get("severity") and wh["severity"] != alert.severity.value` skips a webhook; an empty text
  -- is false
  unfoldable pub wants : AlertPayload F → Webhook → Bool
  wants a wh = elim wh.severity [ none ↦ true | some s ↦ s == "" || s == severity_text a.severity ]

module _ {F R : Type 0} ⦃rd : Redis R⦄ where
  -- `_fire_webhooks`: a post that fails is logged, and the loop goes on
  unfoldable pub fire_webhooks : AlertPayload F → AlertService F R → AlertService F R
  unfolding wants
  fire_webhooks a s = record s {
    posted = s.posted ++ map (λ wh. (wh.url, a)) (select (wants a) s.webhooks);
  }

module _ {F R : Type 0} ⦃rd : Redis R⦄ (out : Sinks F) where
  -- What follows once the alert is no duplicate: an exception leaves what was done before it.
  unfoldable pub raise_new : AlertPayload F → Exec (AlertService F R) Unit
  unfolding dedup_key
  raise_new a s =
      let s1 = record s {
        redis = rd.set_ex (dedup_key a) "1" dedup_ttl_s s.redis;
        attempts = s.attempts + 1;
      } in
      and_then (out.commits s.attempts a, s1)
        λ _ s2.
          and_then (out.publishes s.attempts a, record s2 { stored = s2.stored ++ a ∷ [] })
            λ _ s3. (ok tt, fire_webhooks a (record s3 { published = s3.published ++ a ∷ [] }))

  -- `emit_alert`
  unfoldable pub emit_alert : AlertPayload F → Exec (AlertService F R) Bool
  emit_alert a s =
      if rd.exists (dedup_key a) s.redis
      then (ok false, s)
      else and_then (raise_new a s) λ _ s'. (ok true, s')

  -- `for alert in new_alerts: await emit_alert(alert)`
  unfoldable pub emit_all : List (AlertPayload F) → Exec (AlertService F R) Unit
  emit_all [] s = (ok tt, s)
  emit_all (a ∷ alerts) s = and_then (emit_alert a s) λ _. emit_all alerts

module _ {F R : Type 0} (env : Env F) where
  -- `_build`
  unfoldable pub build : String → Draft F → AlertService F R → AlertPayload F × AlertService F R
  build uid d s = (
    record {
      id = env.uuid s.identifiers;
      unit_id = uid;
      zone_id = none;
      alert_type = d.kind;
      severity = d.level;
      message = env.describe d;
      created_at = env.clock s.readings;
    },
    record s { readings = s.readings + 1; identifiers = s.identifiers + 1 },
  )

  unfoldable pub build_all :
      String → List (Draft F) → AlertService F R → List (AlertPayload F) × AlertService F R
  unfolding build
  build_all uid [] s = ([], s)
  build_all uid (d ∷ ds) s =
      let (a, s') = build uid d s in let (rest, s'') = build_all uid ds s' in (a ∷ rest, s'')

module _ {F R : Type 0} ⦃fl : Float F⦄ ⦃rd : Redis R⦄ (env : Env F) (out : Sinks F) where
  -- What follows once the reading is validated.
  unfoldable pub detect : Result (TelemetryPayload F) → Exec (AlertService F R) Unit
  unfolding emit_all build_all
  detect (raised e) s = (ok tt, s)
  detect (ok t) s =
      let (drafts, detector') = update t s.detector in
      let s1 = record s { detector = detector'; readings = s.readings + 1 } in
      let (alerts, s2) = build_all env t.unit_id drafts s1 in emit_all out alerts s2

  -- `handle_processed_telemetry`, on what the payload was parsed to; `none` stands for a payload
  -- that has not the fields of a reading
  unfoldable pub handle_processed_telemetry :
      Option (TelemetryPayload F) → Exec (AlertService F R) Unit
  handle_processed_telemetry none s = (ok tt, s)
  handle_processed_telemetry (some raw) s = detect (telemetry_payload raw) s

module _ {F : Type 0} where
  -- `Enum(v)`: only a text names a member
  abbrev member {ℓ} : {E : Type ℓ} → (String → Result E) → Value F → Result E
  member of_text (text s) = of_text s
  member of_text v = raised value_error

  -- a `str` field, and an `Optional[str]` field, of a pydantic model
  abbrev str_field : Value F → Result String
  str_field (text s) = ok s
  str_field v = raised validation_error

  abbrev optional_str_field : Option (Value F) → Result (Option String)
  optional_str_field none = ok none
  optional_str_field (some null) = ok none
  optional_str_field (some (text s)) = ok (some s)
  optional_str_field (some v) = raised validation_error

  -- The alert that `handle_system_alerts` builds.
  unfoldable pub system_alert : Env F → String → F → Dict (Value F) → Result (AlertPayload F)
  unfolding item
  system_alert env fresh now raw = do
    uid ← item raw "unit_id"
    type ← item raw "type"
    alert_type ← member alert_type_of_text type
    severity ← member severity_of_text (or_else (lookup "severity" raw) (text "WARNING"))
    id ← str_field (or_else (lookup "id" raw) (text fresh))
    unit_id ← str_field uid
    zone_id ← optional_str_field (lookup "zone_id" raw)
    message ← str_field (or_else (lookup "message" raw) (text (env.show raw)))
    ok (record {
      id = id;
      unit_id = unit_id;
      zone_id = zone_id;
      alert_type = alert_type;
      severity = severity;
      message = message;
      created_at = now;
    })

module _ {F R : Type 0} ⦃rd : Redis R⦄ (out : Sinks F) where
  -- `await emit_alert(alert)`: an exception, from it or from building the alert, is logged
  unfoldable pub settle : Result (AlertPayload F) → AlertService F R → AlertService F R
  settle (raised e) s = s
  settle (ok a) s = (emit_alert out a s).1

module _ {F R : Type 0} ⦃rd : Redis R⦄ (env : Env F) (out : Sinks F) where
  -- `handle_system_alerts`, on what the payload was parsed to
  unfoldable pub handle_system_alerts :
      Option (Dict (Value F)) → AlertService F R → AlertService F R
  unfolding settle
  handle_system_alerts none s = s
  handle_system_alerts (some raw) s =
      settle out (system_alert env (env.uuid s.identifiers) (env.clock s.readings) raw)
        (record s { readings = s.readings + 1; identifiers = s.identifiers + 1 })
