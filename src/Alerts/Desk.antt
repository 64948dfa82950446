-- ===== src/Alerts/Desk.antt =====
-- The endpoints of the alert service (main (3).py): the alerts table as they read and write it.
use centralized_hvac_system.Prelude.{
  ℕ, String, Bool, true, false, not, ◌&&◌, ◌||◌, Option, none, some, List, [], ◌∷◌, ◌++◌, ◌==◌,
  select, take, length, if◌then◌else◌, map, nat_eq,
}
use centralized_hvac_system.Prelude.Result.{ok, raised, http_error, Exec}
use centralized_hvac_system.Models.{AlertType, alert_type_text, AlertSeverity, severity_text}
use centralized_hvac_system.Alerts.Detector.{AlertPayload}
use centralized_hvac_system.Alerts.Pipeline.{AlertService}

-- A row of the alerts table.
pub record AlertRow (F : Type 0) : Type 0 where
  pub alert : AlertPayload F
  pub resolved : Bool
  pub resolved_at : Option F

-- The filters of `list_alerts`: an empty unit identifier filters nothing.
pub record AlertFilter : Type 0 where
  pub unit_id : Option String
  pub alert_type : Option AlertType
  pub severity : Option AlertSeverity
  pub resolved : Option Bool

unfoldable pub of_unit : Option String → String → Bool
of_unit none u = true
of_unit (some wanted) u = wanted == "" || u == wanted

unfoldable pub of_type : Option AlertType → AlertType → Bool
of_type none t = true
of_type (some wanted) t = alert_type_text t == alert_type_text wanted

unfoldable pub of_severity : Option AlertSeverity → AlertSeverity → Bool
of_severity none s = true
of_severity (some wanted) s = severity_text s == severity_text wanted

unfoldable pub of_resolved : Option Bool → Bool → Bool
of_resolved none r = true
of_resolved (some true) r = r
of_resolved (some false) r = not r

module _ {F : Type 0} where
  unfoldable pub fits_filter : AlertFilter → AlertRow F → Bool
  unfolding of_unit of_type of_severity of_resolved
  fits_filter f r =
      of_unit f.unit_id r.alert.unit_id
      && of_type f.alert_type r.alert.alert_type
      && of_severity f.severity r.alert.severity
      && of_resolved f.resolved r.resolved

  -- `list_alerts`; `newest_first` is the ORDER BY of PostgreSQL on the time of creation
  unfoldable pub list_alerts :
      (List (AlertRow F) → List (AlertRow F))
      → AlertFilter
      → ℕ
      → List (AlertRow F)
      → List (AlertPayload F)
  unfolding fits_filter
  list_alerts newest_first f limit rows =
      map (λ r. r.alert) (take limit (newest_first (select (fits_filter f) rows)))

  -- The UPDATE of `resolve_alert`, at the time `now`.
  unfoldable pub mark_resolved : F → String → List (AlertRow F) → List (AlertRow F)
  mark_resolved now alert_id [] = []
  mark_resolved now alert_id (r ∷ rows) =
      let rest = mark_resolved now alert_id rows in
      if r.alert.id == alert_id
      then record r { resolved = true; resolved_at = some now } ∷ rest
      else r ∷ rest

  -- `resolve_alert`: no row was updated
  unfoldable pub resolve_alert : F → String → Exec (List (AlertRow F)) String
  unfolding mark_resolved
  resolve_alert now alert_id rows =
      if nat_eq (length (select (λ r. r.alert.id == alert_id) rows)) 0
      then (raised (http_error 404), rows)
      else (ok alert_id, mark_resolved now alert_id rows)

  -- The count of `alert_summary` for a severity and a type.
  unfoldable pub open_count : AlertSeverity → AlertType → List (AlertRow F) → ℕ
  unfolding of_type of_severity
  open_count severity kind rows = length (
      select
        (λ r.
          not r.resolved
          && of_severity (some severity) r.alert.severity
          && of_type (some kind) r.alert.alert_type)
        rows)

-- `add_webhook`
unfoldable pub add_webhook :
    {F R : Type 0} → String → Option AlertSeverity → AlertService F R → AlertService F R
add_webhook url none s = record s {
  webhooks = s.webhooks ++ record { url = url; severity = none } ∷ [];
}
add_webhook url (some severity) s = record s {
  webhooks = s.webhooks ++ record { url = url; severity = some (severity_text severity) } ∷ [];
}
