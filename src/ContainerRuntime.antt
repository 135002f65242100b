-- ===== src/ContainerRuntime.antt =====
-- pkg/containerruntime: the configuration of containerd.
pub mod Config
pub mod Flags
pub mod FlagsLaws
pub mod Hosts
pub mod HostsLaws
pub mod Tests
