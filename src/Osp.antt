-- ===== src/Osp.antt =====
-- pkg/controllers/osp and pkg/resources/reconciling: the default OSPs, parsed from the files that
-- are built into the program, are kept in the cluster.
pub mod Files
pub mod Controller
pub mod Installed
pub mod Loaded
pub mod Tests
