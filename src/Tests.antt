-- ===== src/Tests.antt =====
-- Runs of the model on concrete data, and each property with conditions at data that meet them.
pub mod Data
mod Rules
mod Balancer
mod Optimizer
mod Dispatcher
mod Loop
mod Gateway
mod Alerts
mod Twins
mod LocalRules
mod Loops
mod Auth
mod Devices
mod Simulator
mod Mqtt
mod Maintenance
