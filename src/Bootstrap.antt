-- ===== src/Bootstrap.antt =====
-- pkg/bootstrap: the tokens and kubeconfigs with which a new node reaches the API server.
pub mod Cluster
pub mod Token
pub mod Kubeconfig
pub mod Laws
pub mod Live
pub mod Context
pub mod Run
pub mod Tests
