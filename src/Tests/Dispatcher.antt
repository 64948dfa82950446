-- ===== src/Tests/Dispatcher.antt =====
-- The rate limit on a store that counts its keys down.
use centralized_hvac_system.Prelude.{◌≡◌, refl, true, false, List, [], ◌∷◌, arith}
use centralized_hvac_system.Float.{Micro}
use centralized_hvac_system.Redis.{Store, store_redis, Store-IsRedis}
use centralized_hvac_system.Control.Service.{Service}
use centralized_hvac_system.Control.Dispatcher.{dispatch}
use centralized_hvac_system.Control.Dispatcher.Limit.{
  Event, wait, try_command, override_command, run, one_per_window, limit_lifts,
}
use centralized_hvac_system.Tests.Data.{env, at_start, switch}

-- Two seconds, another unit, a refused command, an override, two seconds.
abbrev busy_time : List (Event Micro)
busy_time =
    wait 2000
    ∷ try_command (switch "u2")
    ∷ try_command (switch "u1")
    ∷ override_command (switch "u1")
    ∷ wait 2000
    ∷ []

abbrev sent : Service Micro Store
sent = (dispatch env (switch "u1") at_start).1

start_accepts : (dispatch env (switch "u1") at_start).0 ≡ true
unfolding dispatch centralized_hvac_system.Dict.lookup
start_accepts = refl

one_per_window_example :
    dispatch env (switch "u1") (run env busy_time sent) ≡ (false, run env busy_time sent)
one_per_window_example =
    one_per_window Store-IsRedis env (switch "u1") (switch "u1") busy_time at_start start_accepts
      refl (omega arith)

abbrev quiet_time : List (Event Micro)
quiet_time = wait 2000 ∷ try_command (switch "u2") ∷ wait 3000 ∷ []

limit_lifts_example : (dispatch env (switch "u1") (run env quiet_time sent)).0 ≡ true
limit_lifts_example =
    limit_lifts Store-IsRedis env (switch "u1") (switch "u1") quiet_time at_start start_accepts refl
      refl (omega arith)
