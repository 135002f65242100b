-- ===== src/Resources.antt =====
-- pkg/controllers/osc/resources: the OperatingSystemConfig that is made from a MachineDeployment
-- and its OperatingSystemProfile.
pub mod Data
pub mod Kubelet
pub mod Files
pub mod Generate
pub mod Laws
pub mod FilesLaws
pub mod KubeletLaws
pub mod PairsLaws
pub mod Tests
