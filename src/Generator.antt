-- ===== src/Generator.antt =====
-- pkg/generator: the provisioning utility of a machine, and the user data of an OSC.
pub mod Provisioner
pub mod Templates
pub mod Generate
pub mod Laws
pub mod Tests
