-- ===== src/Osc.antt =====
-- pkg/controllers/osc: the controller that keeps an OperatingSystemConfig and two Secrets for each
-- MachineDeployment.
pub mod Names
pub mod Api
pub mod Secrets
pub mod Configs
pub mod Reconciler
pub mod Invariants
pub mod Immutable
pub mod Frame
pub mod Cleanup
pub mod Current
pub mod Settled
pub mod Edge
pub mod Requests
pub mod Tests
