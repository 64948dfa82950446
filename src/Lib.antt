-- ===== src/Lib.antt =====
-- A model of the Centralized HVAC System: the services that read the units of a building, keep a
-- digital twin of each, raise alerts and send commands.
--
-- The parts and their files. The shared schemas are in models.py. The control service, main
-- (2).py, runs a round every ten seconds: it reads all twins from Redis, runs the rule engine
-- and the setpoint optimizer on each unit, then the load balancer on each zone, and sends what
-- they ask for through a rate-limited dispatcher. The edge gateway, gateway.py, polls the units
-- of a building, answers their commands, and keeps what it publishes in a buffer while the
-- broker is away. The alert service, main (3).py, scans the readings for anomalies and stores,
-- publishes and deduplicates the alerts. The digital twin service, main (1).py, keeps the twin
-- of each unit that the control service reads. The device service, main.py, keeps the tables of
-- zones and units and sends commands on request. The predictive maintenance service, main
-- (4).py, scores each unit and warns of those at risk. All services share the authentication of
-- auth.py and the MQTT client of mqtt_client.py; simulate.py plays a fleet of units.
--
-- - Models: the enumerations of models.py with their texts, ControlCommand and TelemetryPayload
--   with the ranges that their constructors enforce.
-- - Control.Value: the values of a twin dictionary, and what `float`, `>=`, `+`, `<` and
--   `f"{v}"` do on them, with the exceptions that they raise.
-- - Control.Rules: RuleEngine of main (2).py; `visit` is one turn of the loop in `evaluate`, and
--   `conclude` what follows its guards. Order, Firing, Total and Cooldown hold its theorems.
-- - Control.Balancer: LoadBalancer.evaluate_zone; `survey` is its three list comprehensions,
--   `decide` the two branches. Choice, Quiet and Texts hold its theorems.
-- - Control.Optimizer: SetpointOptimizer.suggest_setpoint; Comfort holds its theorems.
-- - Control.Service: the state of the process and what it takes from outside.
-- - Control.Dispatcher: CommandDispatcher.dispatch and the endpoint POST /command; Limit holds
--   the theorems on the rate limit.
-- - Control.Actions: `_action_to_command` and DEFAULT_RULES with the thresholds of config.py;
--   Overheat is about these rules on a hot twin.
-- - Control.Loop: the body of `control_loop`; Turn, Round, Emergency and Zones hold its
--   theorems.
-- - Gateway.Buffer: OfflineBuffer of gateway.py, its SQLite table as the list of its rows in the
--   order of their keys; Fifo holds its theorems.
-- - Gateway.Link: MQTTManager of gateway.py; Replay, Backoff and Stranded hold its theorems.
-- - Gateway.Telemetry, Gateway.Adapter, Gateway.Balancer, Gateway.Commands: RawTelemetry,
--   MockAdapter, LocalLoadBalancer and EdgeGateway._on_command of gateway.py; Range, Idlest and
--   Effect hold their theorems.
-- - Gateway.Modbus: ModbusAdapter of gateway.py on its bus, which the adapters carry as
--   their client: a connect fails or a write raises as the bus says.
-- - Gateway.Loops: the constructor of EdgeGateway and the turns of its two loops, a turn at a
--   time: the messages of the two loops are not interleaved. Away holds its theorem.
-- - Gateway.Rules: LocalRuleEngine.evaluate and `_apply` of gateway.py; Once holds its theorem.
-- - Alerts.Detector: AnomalyDetector of main (3).py; Window holds its theorem.
-- - Alerts.Pipeline: emit_alert and the topic handlers of main (3).py; Dedup holds their
--   theorems.
-- - Alerts.Desk: the REST endpoints of main (3).py on the rows of the alerts table.
-- - Control.Status: the load-balance summary of main (2).py.
-- - Twins.Service: the cold start, the zone aggregates and the endpoints of main (1).py.
-- - Twins: the update of a twin and its hash in Redis of main (1).py; Stored and Drift hold its
--   theorems.
-- - Auth.Access, Auth.Limiter, Auth.Verify: the permission matrix, RateLimiter, and the way from
--   the credentials of a request to its user of auth.py, with login; Auth.Zset is the interface
--   of the sorted sets of Redis. Roles, Live, Tracks, Window, Checks and Login hold their
--   theorems.
-- - Devices: the schemas of zones and units and the endpoints that write them, of main.py and
--   models.py; Devices.Status has those that read, Devices.Command the command endpoint.
--   Registry is the view of clients; Keys, Rows, Sound and Refines hold their theorems.
-- - Mqtt: AsyncMQTTClient of mqtt_client.py; Dispatch holds its theorem.
-- - Maintenance: the state and what it takes from outside of main (4).py; Maintenance.Score,
--   Maintenance.Analysis and Maintenance.Stored have its scores, `analyse_unit`, and the
--   endpoints that read. Kept and Risk hold its theorems.
-- - Simulator: ThermalState and UnitSimulator of simulate.py; Simulator.Fleet builds the fleet.
--   Bounds holds its theorem.
-- - Prelude, Float, Dict and Redis: texts, lists, results and exceptions; the float interface;
--   Python's dict; the Redis interface.
-- - Tests: runs of the model on concrete data.
--
-- How the code is translated. A function that changes an object takes its state and returns the
-- new one; `Exec S A` is such a function that may raise, and the state reached before the
-- exception is kept, as in Python. A loop is a recursion on its list. Only the replay of the
-- buffer runs on fuel, one more than its rows, and each batch but the last takes a row. Python's
-- float is a parameter, the record Float, with order laws that hold of doubles, NaN among them
-- (IsOrdered), and for the optimizer the laws of doubling, rounding and halving (RoundsHalves);
-- whole millionths instantiate both. Redis is a parameter too, with the laws of SET with EX and
-- of EXISTS (IsRedis); an association list with times instantiates it. So are the sorted sets of
-- Redis (IsZset), tokens (IsJwt), PostgreSQL's verdict on a transaction, and the numbers that
-- pandas, scikit-learn and numpy give (IsNumeric). The clock and uuid4 are sequences of
-- readings. Priorities and cooldown periods are integers without a bound, as in Python.
--
-- `_on_connect` schedules the replay only where the thread that calls it has an event loop, which
-- is a parameter; where there is none it raises, as asyncio does in the thread of paho's client,
-- and the buffer is never replayed. The replay is modelled as one run, without the messages that
-- the gateway could publish between its batches. An alert's commit and publication, and the
-- publication of a risk, may raise, as parameters say.
--
-- Tables are lists in the order of insertion, and a request of the device service is one
-- transaction, so that requests do not interleave inside one. The draws of random are arguments.
--
-- Not modelled: the feature engineering of the maintenance service, which is calls of pandas,
-- and its synthetic training data; the set-up and the health endpoints of the FastAPI processes;
-- the connections of paho's client; the serialisation to JSON, the SQL statements and
-- migrations, and the log lines; the firmware, which is C. An exception in a round is logged;
-- `control_round` leaves the state as the exception left it.
pub mod Prelude
pub mod Float
pub mod Dict
pub mod Models
pub mod Redis
pub mod Control
pub mod Gateway
pub mod Alerts
pub mod Twins
pub mod Auth
pub mod Devices
pub mod Mqtt
pub mod Maintenance
pub mod Simulator
pub mod Tests
