-- ===== src/Devices/Command.antt =====
-- The command endpoint of the device service (main.py, `send_command`).
use centralized_hvac_system.Prelude.{
  ℕ, ◌+◌, String, Bool, true, false, Option, none, some, [], ◌∷◌, ◌++◌, ◌==◌, if◌then◌else◌,
}
use centralized_hvac_system.Prelude.Result.{ok, raised, http_error, Exec, and_then}
use centralized_hvac_system.Float.{Float}
use centralized_hvac_system.Models.{UnitStatus, offline, ControlCommand, control_command}
use centralized_hvac_system.Control.Service.{command_topic}
use centralized_hvac_system.Devices.{AcUnit, Server, Outside, found, unit_at}

unfoldable pub is_offline : UnitStatus → Bool
is_offline offline = true
is_offline s = false

-- The correlation identifier of a command, or a new one if it has none or an empty one, and how many
-- identifiers were drawn.
unfoldable pub correlation : (ℕ → String) → ℕ → Option String → String × ℕ
correlation uuid n none = (uuid n, n + 1)
correlation uuid n (some c) = if c == "" then (uuid n, n + 1) else (c, n)

-- The command as it is published.
unfoldable pub addressed : {F : Type 0} → String → String → ControlCommand F → ControlCommand F
addressed unit_id c cmd = record cmd { unit_id = unit_id; correlation_id = some c }

module _ {F J : Type 0} where
  -- `send_command` for a unit that is there: the topic and the correlation identifier
  unfoldable pub issue :
      Outside F J → String → ControlCommand F → AcUnit F J → Exec (Server F J) (String × String)
  unfolding is_offline correlation
  issue out unit_id cmd unit s =
      let (c, n) = correlation out.uuid s.identifiers cmd.correlation_id in
      let topic = command_topic unit_id in
      if is_offline unit.status then (raised (http_error 409), s) else (
        ok (topic, c),
        record s { outbox = s.outbox ++ (topic, addressed unit_id c cmd) ∷ []; identifiers = n },
      )

module _ {F J : Type 0} ⦃fl : Float F⦄ where
  -- `send_command`, with the validation of the command
  unfoldable pub send_command :
      Outside F J → String → ControlCommand F → Exec (Server F J) (String × String)
  send_command out unit_id cmd s =
      and_then (control_command cmd, s)
        λ cmd s. found 404 (unit_at unit_id s.tables.units) (issue out unit_id cmd) s
