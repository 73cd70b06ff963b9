-- ===== src/Port.antt =====
-- include/vnic/vnic.h and src/vnic/vnic.cpp: the port.
pub mod Config
pub mod State
pub mod Queues
pub mod Control
pub mod Burst
pub mod Poll
pub mod Admission
pub mod Fate
pub mod Ledger
pub mod Accounts
pub mod Traffic
pub mod Calls
pub mod Fresh
pub mod Session
pub mod Leak
pub mod Round
pub mod Loop
pub mod Transmission
pub mod Bringup
pub mod Launch
pub mod Lifetime
pub mod Switch
pub mod Halt
pub mod Configured
pub mod Table
pub mod Reta
pub mod Setup
pub mod Receive
pub mod Delivery
mod Tests
pub mod Scenario
mod Examples
