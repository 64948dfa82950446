-- ===== src/Twins/Service.antt =====
-- What the digital twin service does beside the readings (main (1).py): the cold start from the table
-- of units, the aggregates of zones, the endpoints that read twins, and the stream of updates.
use centralized_hvac_system.Prelude.{
  ℕ, String, Bool, not, ◌&&◌, ◌||◌, Option, none, some, List, [], ◌∷◌, ◌++◌, ◌==◌, select, length,
  if◌then◌else◌, or_else,
}
use centralized_hvac_system.Prelude.Int.{pos}
use centralized_hvac_system.Prelude.Result.{Result, ok, raised, http_error}
use centralized_hvac_system.Float.{Float}
use centralized_hvac_system.Dict.{Dict, lookup, insert, values}
use centralized_hvac_system.Control.Loop.{Hash}
use centralized_hvac_system.Devices.{AcUnit}
use centralized_hvac_system.Devices.Status.{is_online}
use centralized_hvac_system.Twins.{DigitalTwinState, Texts, TwinService, persist, read_back}

module _ {F : Type 0} ⦃fl : Float F⦄ where
  -- `unit.current_temp or 25.0`: null and 0.0 give the default
  unfoldable pub known_temp : Option F → F
  known_temp none = fl.dec 25 0
  known_temp (some t) = if fl.le t (fl.dec 0 0) && fl.le (fl.dec 0 0) t then fl.dec 25 0 else t

module _ {F J : Type 0} ⦃fl : Float F⦄ where
  -- The twin of a row of the table of units.
  unfoldable pub seeded : AcUnit F J → DigitalTwinState F
  unfolding known_temp
  seeded u = record {
    unit_id = u.id;
    zone_id = u.zone_id;
    status = u.status;
    current_temp = known_temp u.current_temp;
    target_temp = u.target_temp;
    humidity = fl.dec 50 0;
    load_percentage = u.load_percentage;
    power_consumption_w = u.power_consumption_w;
    fan_speed = u.fan_speed;
    pid_output = fl.dec 0 0;
    last_telemetry = none;
    last_command = none;
    online = is_online u.status;
    alert_flags = [];
  }

  -- `_bootstrap_twins`
  unfoldable pub bootstrap_twins : Texts F → List (AcUnit F J) → TwinService F → TwinService F
  bootstrap_twins texts [] s = s
  bootstrap_twins texts (u ∷ us) s =
      bootstrap_twins texts us
        (persist texts (seeded u) (record s { cache = insert u.id (seeded u) s.cache }))

-- The aggregate of a zone.
pub record ZoneAggregate (F : Type 0) : Type 0 where
  pub zone_id : String
  pub total_units : ℕ
  pub online_units : ℕ
  pub avg_temp : F
  pub avg_load : F
  pub total_power_w : F
  pub ts : F

module _ {F : Type 0} ⦃fl : Float F⦄ where
  -- `zone_buckets[twin.zone_id].append(twin)`
  unfoldable pub buckets :
      List (DigitalTwinState F)
      → Dict (List (DigitalTwinState F))
      → Dict (List (DigitalTwinState F))
  buckets [] zones = zones
  buckets (t ∷ twins) zones =
      buckets twins (insert t.zone_id (or_else (lookup t.zone_id zones) [] ++ t ∷ []) zones)

  -- `sum(field(t) for t in twins)`
  unfoldable pub sum_field : (DigitalTwinState F → F) → List (DigitalTwinState F) → F → F
  sum_field field [] total = total
  sum_field field (t ∷ twins) total = sum_field field twins (fl.add total (field t))

  unfoldable pub mean_field : (DigitalTwinState F → F) → List (DigitalTwinState F) → F
  unfolding sum_field
  mean_field field twins =
      fl.round_to (fl.div (sum_field field twins (fl.dec 0 0)) (fl.of_int (pos (length twins)))) 2

  -- `if not online: continue`
  unfoldable pub aggregate_online :
      F → String → List (DigitalTwinState F) → List (DigitalTwinState F) → List (ZoneAggregate F)
  unfolding mean_field
  aggregate_online now zone_id twins [] = []
  aggregate_online now zone_id twins (t ∷ rest) =
      record {
        zone_id = zone_id;
        total_units = length twins;
        online_units = length (t ∷ rest);
        avg_temp = mean_field (λ t. t.current_temp) (t ∷ rest);
        avg_load = mean_field (λ t. t.load_percentage) (t ∷ rest);
        total_power_w = fl.round_to (sum_field (λ t. t.power_consumption_w) twins (fl.dec 0 0)) 2;
        ts = now;
      }
      ∷ []

  -- The loop over the zones: what is published, retained, and set under the zone's key.
  unfoldable pub aggregates : F → Dict (List (DigitalTwinState F)) → List (ZoneAggregate F)
  unfolding aggregate_online
  aggregates now [] = []
  aggregates now ((zone_id, twins) ∷ zones) =
      aggregate_online now zone_id twins (select (λ t. t.online) twins) ++ aggregates now zones

  -- One turn of `zone_aggregation_loop`, at the time `now`.
  unfoldable pub zone_aggregation : F → TwinService F → List (ZoneAggregate F)
  unfolding buckets
  zone_aggregation now s = aggregates now (buckets (values s.cache) [])

  -- `list_twins`; an empty zone identifier filters nothing
  unfoldable pub list_twins : Option String → Bool → TwinService F → List (DigitalTwinState F)
  list_twins zone_id online_only s =
      let zone = or_else zone_id "" in
      select (λ t. (zone == "" || t.zone_id == zone) && (not online_only || t.online))
        (values s.cache)

  -- `if not raw: raise HTTPException(404)`: an empty hash is no twin
  unfoldable pub twin_of_hash : Texts F → Option Hash → Result (DigitalTwinState F)
  twin_of_hash texts none = raised (http_error 404)
  twin_of_hash texts (some []) = raised (http_error 404)
  twin_of_hash texts (some (e ∷ raw)) = read_back texts (e ∷ raw)

  -- `get_twin`: from the cache, or else from Redis
  unfoldable pub twin_or_hash :
      Texts F → Option (DigitalTwinState F) → Option Hash → Result (DigitalTwinState F)
  unfolding twin_of_hash
  twin_or_hash texts (some twin) raw = ok twin
  twin_or_hash texts none raw = twin_of_hash texts raw

  unfoldable pub get_twin : Texts F → String → TwinService F → Result (DigitalTwinState F)
  unfolding twin_or_hash
  get_twin texts unit_id s = twin_or_hash texts (lookup unit_id s.cache) (lookup unit_id s.stored)

-- The broadcast of an update: the connections on which `send_text` raises are removed.
unfoldable pub broadcast : {W : Type 0} → (W → Bool) → List W → List W
broadcast sends connections = select sends connections
