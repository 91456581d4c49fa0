-- ===== src/Broker.antt =====
-- broker/manager.py: the operations of the class `Broker`.
pub mod Base
pub mod NextId
pub mod Request
pub mod Stop
pub mod Release
pub mod Reconcile
pub mod Attach
pub mod Transitions
