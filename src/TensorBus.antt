-- ===== src/TensorBus.antt =====
-- src/etha/tensor_bus/agent.py.
pub mod Rendezvous
pub mod Registration
pub mod Generate
pub mod Layouts
pub mod Admission
pub mod Rounds
pub mod Handlers
pub mod InitPair
pub mod Pairs
pub mod Status
pub mod Client
