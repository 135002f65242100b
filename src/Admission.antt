-- ===== src/Admission.antt =====
-- pkg/admission: the webhooks, which validate OSPs and OSCs and mutate MachineDeployments.
pub mod Review
pub mod OscValidation
pub mod OspValidation
pub mod Mutation
pub mod Laws
pub mod Tests
