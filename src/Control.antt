-- ===== src/Control.antt =====
-- The control service (main (2).py): the rule engine, the load balancer, the setpoint optimizer,
-- the command dispatcher and the control loop.
pub mod Value
pub mod Rules
pub mod Balancer
pub mod Optimizer
pub mod Service
pub mod Status
pub mod Dispatcher
pub mod Actions
pub mod Loop
