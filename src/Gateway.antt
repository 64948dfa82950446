-- ===== src/Gateway.antt =====
-- The edge gateway (gateway.py): adapters, local rules and load balancing, the offline buffer, the
-- link to the broker, and the commands.
pub mod Buffer
pub mod Link
pub mod Adapter
pub mod Balancer
pub mod Commands
pub mod Rules
pub mod Telemetry
pub mod Modbus
pub mod Loops
