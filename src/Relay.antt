-- ===== src/Relay.antt =====
-- The relay process: relay/publisher.py, relay/service.py and relay/main.py.
pub mod Publisher
pub mod Service
pub mod Main
pub mod Cluster
pub mod Bounds
pub mod PublishEffect
pub mod Effects
pub mod FailureEffect
pub mod Induction
pub mod Safety
pub mod Pending
pub mod Budget
pub mod Served
pub mod Success
pub mod Progress
pub mod Alive
pub mod Drain
pub mod Delivered
pub mod Shutdown
