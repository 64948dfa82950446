-- ===== src/Control/Dispatcher.antt =====
-- The command dispatcher and the manual override of the control service (main (2).py).
pub mod Limit
use centralized_hvac_system.Prelude.{
  or_else, ℕ, ◌+◌, String, Bool, true, false, Option, none, some, List, [], ◌∷◌, ◌++◌, ◌==◌,
  if◌then◌else◌, ◌<>◌,
}
use centralized_hvac_system.Redis.{Redis}
use centralized_hvac_system.Models.{ControlCommand}
use centralized_hvac_system.Control.Service.{
  Message, command, Env, Service, command_topic, read_clock, new_id, publish,
}

abbrev pub cmd_rate_limit_s : ℕ
cmd_rate_limit_s = 5

unfoldable pub rate_key : String → String
rate_key unit_id = "cmd_rate:" <> unit_id

-- f"cmd_ack:{cmd.correlation_id}"
unfoldable pub ack_key : Option String → String
ack_key corr = "cmd_ack:" <> or_else corr "None"

module _ {F R : Type 0} ⦃rd : Redis R⦄ (env : Env F) where
  -- What follows once the unit is not rate-limited.
  unfoldable pub send : ControlCommand F → Service F R → Service F R
  send cmd s =
      let (issued_at, s1) = read_clock env s in
      let message = command (command_topic cmd.unit_id) cmd issued_at false in
      let s2 = publish env message s1 in
      let limited = rd.set_ex (rate_key cmd.unit_id) "1" cmd_rate_limit_s s2.redis in
      let tracked = rd.set_ex (ack_key cmd.correlation_id) (env.dumps message) 300 limited in
      record s2 { redis = tracked }

  -- `CommandDispatcher.dispatch`
  unfoldable pub dispatch : ControlCommand F → Service F R → Bool × Service F R
  dispatch cmd s =
      if rd.exists (rate_key cmd.unit_id) s.redis then (false, s) else (true, send cmd s)

  -- `cmd.correlation_id or str(uuid.uuid4())`: an empty text counts as none
  unfoldable pub identified : ControlCommand F → Service F R → ControlCommand F × Service F R
  identified cmd s = elim cmd.correlation_id [
    | none ↦ let (corr, s') = new_id env s in (record cmd { correlation_id = some corr }, s')
    | some corr ↦
        let (fresh, s') = new_id env s in
        if corr == "" then (record cmd { correlation_id = some fresh }, s') else (cmd, s)
  ]

  -- `POST /command`: a manual override, which the rate limit does not hold back
  unfoldable pub manual_command : ControlCommand F → Service F R → Service F R
  manual_command cmd s =
      let (cmd', s') = identified cmd s in
      let (issued_at, s'') = read_clock env s' in
      publish env (command (command_topic cmd'.unit_id) cmd' issued_at true) s''
